-- ===== src/Zone/Columns.antt =====
-- The rows of zones against the statements that insert them (lib/dnsa_net.c and lib/queries.c).
use cmdb.Base.{Option, ℕ, ◌≡◌, refl, none, some, List, length, get_elem?}
use cmdb.Data.{Text, DataList}
use cmdb.Tables.{insert_forward_zone, insert_forward_slave_zone, insert_reverse_zone}
use cmdb.Sql.{SqlQuery}
use cmdb.Sql.Insert.{insert_queries}
use cmdb.Sql.Lite.{Bound}
use cmdb.Sql.Lite.Bind.{values_at}
use cmdb.Zone.{Settings, Outside}
use cmdb.Zone.Rows.{zone_row, rev_zone_row}

-- One argument for each place of the statement, of the type that it has there.
pub record Binds (q : SqlQuery) (args : DataList) : Type 0 where
  pub values : List Bound
  pub as_many : length args ≡ q.number
  pub typed : values_at q.fields 0 args ≡ some values

-- The list of arguments is one for the statement with that number.
pub record Inserts (n : ℕ) (args : DataList) : Type 0 where
  pub query : SqlQuery
  pub listed : get_elem? insert_queries n ≡ some query
  pub binds : Binds query args

module _ (outside : Outside) (cbs : Settings) (prins : Text) (given : cbs.prins ≡ some prins) where
  -- The row of a zone of its own has a value for each place of INSERT_FORWARD_ZONE and of its type, the
  -- row of a zone with a master elsewhere for INSERT_FORWARD_SLAVE_ZONE, and the row of a reverse zone,
  -- with a master elsewhere or without, for INSERT_REVERSE_ZONE. The primary name server is set.
  pub zone_rows_fit :
      (domain type ip range finish_text : Text) (prefix start finish : ℕ)
      → Inserts insert_forward_zone (zone_row outside cbs prins given domain none)
        × Inserts insert_forward_slave_zone
            (zone_row outside cbs prins given domain (some (type, ip)))
        × Inserts insert_reverse_zone
            (rev_zone_row outside cbs prins given range none prefix (start, finish) finish_text)
        × Inserts insert_reverse_zone (
            rev_zone_row outside cbs prins given range (some ip) prefix (start, finish) finish_text)
  unfolding insert_queries values_at
  zone_rows_fit domain type ip range finish_text prefix start finish = (
    record {
      query = _;
      listed = refl;
      binds = record { values = _; as_many = refl; typed = refl };
    },
    record {
      query = _;
      listed = refl;
      binds = record { values = _; as_many = refl; typed = refl };
    },
    record {
      query = _;
      listed = refl;
      binds = record { values = _; as_many = refl; typed = refl };
    },
    record {
      query = _;
      listed = refl;
      binds = record { values = _; as_many = refl; typed = refl };
    },
  )

  -- The row of a reverse zone has a value for each place of INSERT_REVERSE_ZONE and of its type, with a
  -- master elsewhere or without.
  pub rev_row_fits :
      (range finish_text : Text) (prefix start finish : ℕ) (ip : Option Text)
      → Inserts insert_reverse_zone
          (rev_zone_row outside cbs prins given range ip prefix (start, finish) finish_text)
  rev_row_fits range finish_text prefix start finish none =
      (zone_rows_fit range range range range finish_text prefix start finish).2
  rev_row_fits range finish_text prefix start finish (some ip) =
      (zone_rows_fit range range ip range finish_text prefix start finish).3
