-- ===== src/Sql/Token.antt =====
-- src/sql/lexer.rs: the tokens of SQL and the table of keywords.
use Prim.Native.Char.{code}
use Prim.Native.String.{String}
use voltra.Prelude.{ℕ, Bool, true, false, none, some, List, [], ◌∷◌, Eq-nat, Eq-list}
use voltra.Prelude.Map.{Map, lookup}

-- A text is a list of code points; the lexer reads its UTF-8 bytes (`as_bytes` in Sql/Lexer.antt).
abbrev pub Text : Type 0
Text = List ℕ

-- The bytes of a text in UTF-8.
abbrev pub Bytes : Type 0
Bytes = List ℕ

abbrev pub codes : String → Text
codes String.[] = []
codes (String.◌∷◌ c s) = code c ∷ codes s

-- A float is its bit pattern.
pub data Token : Type 0 where
  integer float : ℕ → Token
  string_lit : Text → Token
  bool_lit : Bool → Token
  null_lit : Token
  ident : Text → Token
  select_tok from_tok where_tok join_tok inner_tok left_tok right_tok full_tok : Token
  outer_tok cross_tok on_tok as_tok and_tok or_tok not_tok in_tok is_tok like_tok : Token
  between_tok exists_tok union_tok all_tok distinct_tok group_tok by_tok : Token
  having_tok order_tok limit_tok offset_tok asc_tok desc_tok count_tok sum_tok : Token
  avg_tok min_tok max_tok insert_tok into_tok values_tok update_tok set_tok : Token
  delete_tok case_tok when_tok then_tok else_tok end_tok coalesce_tok nullif_tok : Token
  cast_tok sub_str_tok length_tok upper_tok lower_tok trim_tok replace_tok : Token
  round_tok floor_tok ceil_tok abs_tok now_tok concat_tok : Token
  eq_tok ne_tok lt_tok le_tok gt_tok ge_tok plus_tok minus_tok star_tok slash_tok percent_tok
        concat2_tok :
      Token
  l_paren r_paren comma dot semi : Token
  eof : Token

abbrev pub keywords : Map Text Token
keywords =
    (codes "select", select_tok)
    ∷ (codes "from", from_tok)
    ∷ (codes "where", where_tok)
    ∷ (codes "join", join_tok)
    ∷ (codes "inner", inner_tok)
    ∷ (codes "left", left_tok)
    ∷ (codes "right", right_tok)
    ∷ (codes "full", full_tok)
    ∷ (codes "outer", outer_tok)
    ∷ (codes "cross", cross_tok)
    ∷ (codes "on", on_tok)
    ∷ (codes "as", as_tok)
    ∷ (codes "and", and_tok)
    ∷ (codes "or", or_tok)
    ∷ (codes "not", not_tok)
    ∷ (codes "in", in_tok)
    ∷ (codes "is", is_tok)
    ∷ (codes "like", like_tok)
    ∷ (codes "between", between_tok)
    ∷ (codes "exists", exists_tok)
    ∷ (codes "union", union_tok)
    ∷ (codes "all", all_tok)
    ∷ (codes "distinct", distinct_tok)
    ∷ (codes "group", group_tok)
    ∷ (codes "by", by_tok)
    ∷ (codes "having", having_tok)
    ∷ (codes "order", order_tok)
    ∷ (codes "limit", limit_tok)
    ∷ (codes "offset", offset_tok)
    ∷ (codes "asc", asc_tok)
    ∷ (codes "desc", desc_tok)
    ∷ (codes "count", count_tok)
    ∷ (codes "sum", sum_tok)
    ∷ (codes "avg", avg_tok)
    ∷ (codes "min", min_tok)
    ∷ (codes "max", max_tok)
    ∷ (codes "insert", insert_tok)
    ∷ (codes "into", into_tok)
    ∷ (codes "values", values_tok)
    ∷ (codes "update", update_tok)
    ∷ (codes "set", set_tok)
    ∷ (codes "delete", delete_tok)
    ∷ (codes "case", case_tok)
    ∷ (codes "when", when_tok)
    ∷ (codes "then", then_tok)
    ∷ (codes "else", else_tok)
    ∷ (codes "end", end_tok)
    ∷ (codes "true", bool_lit true)
    ∷ (codes "false", bool_lit false)
    ∷ (codes "null", null_lit)
    ∷ (codes "coalesce", coalesce_tok)
    ∷ (codes "nullif", nullif_tok)
    ∷ (codes "cast", cast_tok)
    ∷ (codes "substr", sub_str_tok)
    ∷ (codes "substring", sub_str_tok)
    ∷ (codes "length", length_tok)
    ∷ (codes "upper", upper_tok)
    ∷ (codes "lower", lower_tok)
    ∷ (codes "trim", trim_tok)
    ∷ (codes "replace", replace_tok)
    ∷ (codes "round", round_tok)
    ∷ (codes "floor", floor_tok)
    ∷ (codes "ceil", ceil_tok)
    ∷ (codes "ceiling", ceil_tok)
    ∷ (codes "abs", abs_tok)
    ∷ (codes "now", now_tok)
    ∷ (codes "concat", concat_tok)
    ∷ []

unfoldable pub keyword_or_ident : Text → Token
keyword_or_ident s = elim (lookup s keywords) [ none ↦ ident s | some t ↦ t ]
