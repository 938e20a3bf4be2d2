-- ===== src/Table/Counts.antt =====
-- A count by an index is the count by a scan.
use voltra.Prelude.{Eq-nat, Eq-list}
use voltra.Prelude.Map.{Map}
use voltra.Table.Value.{Value}
