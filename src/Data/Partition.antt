-- ===== src/Data/Partition.antt =====
-- lib/data.c: the partitions of a scheme from the rows of a query, and the copy of a value. `none` is a
-- value of another kind than the code reads.
use cmdb.Base.{
  ℕ, ◌*◌, ◌%◌, ◌≡◌, refl, true, ap, ◌∙◌, Option, none, some, List, [], ◌∷◌, ◌++◌, append_assoc,
  append-nil, ◌==◌, if◌then◌else◌, ℤ, pos, length, take, arith,
}
use cmdb.Data.{
  Text, DbData, DataList, text, lint, strndup, mac_len, service_len, config_len, ailsa_no_data,
}
use cmdb.Sql.Multi.{ailsa_wrong_list_lenght}

abbrev pub domain_len : ℕ
domain_len = 256

-- The fields of `ailsa_partition_s` that are filled here.
pub record Partition : Type 0 where
  pub min : ℕ
  pub max : ℕ
  pub pri : ℕ
  pub mount : Text
  pub fs : Text
  pub logvol : Text

abbrev pub partition : ℕ → ℕ → ℕ → Text → Text → Text → Partition
partition min max pri mount fs logvol = record {
  min = min;
  max = max;
  pri = pri;
  mount = strndup mount domain_len;
  fs = strndup fs service_len;
  logvol = strndup logvol mac_len;
}

-- `while (e)`: a round takes six values.
unfoldable pub partition_rounds : DataList → List Partition → Option (List Partition)
partition_rounds [] dest = some dest
partition_rounds (lint min ∷ lint max ∷ lint pri ∷ text mount ∷ text fs ∷ text logvol ∷ e) dest =
    partition_rounds e (dest ++ (partition min max pri mount fs logvol ∷ []))
partition_rounds _ dest = none

abbrev pub filled_result : Option (List Partition) → Option (ℤ × Option (List Partition))
filled_result none = none
filled_result (some dest) = some (pos 0, some dest)

unfoldable pub cbc_fill_partition_details :
    Option DataList → Option (List Partition) → Option (ℤ × Option (List Partition))
unfolding partition_rounds
cbc_fill_partition_details (some list) (some dest) =
    if length list % 6 == 0
    then filled_result (partition_rounds list dest)
    else some (ailsa_wrong_list_lenght, some dest)
cbc_fill_partition_details _ dest = some (ailsa_no_data, dest)

-- A row of the query for the partitions of a scheme.
pub record PartitionRow : Type 0 where
  pub minimum : ℕ
  pub maximum : ℕ
  pub priority : ℕ
  pub mount_point : Text
  pub filesystem : Text
  pub logical_volume : Text

abbrev pub row_values : List PartitionRow → DataList
row_values [] = []
row_values (r ∷ rows) =
    lint r.minimum
    ∷ lint r.maximum
    ∷ lint r.priority
    ∷ text r.mount_point
    ∷ text r.filesystem
    ∷ text r.logical_volume
    ∷ row_values rows

abbrev pub partitions : List PartitionRow → List Partition
partitions [] = []
partitions (r ∷ rows) =
    record {
      min = r.minimum;
      max = r.maximum;
      pri = r.priority;
      mount = take 256 r.mount_point;
      fs = take 16 r.filesystem;
      logvol = take 32 r.logical_volume;
    }
    ∷ partitions rows

partition_rounds_lem :
    (rows : List PartitionRow) (dest : List Partition)
    → partition_rounds (row_values rows) dest ≡ some (dest ++ partitions rows)
unfolding partition_rounds
partition_rounds_lem [] dest = rw (append-nil dest) refl
partition_rounds_lem (r ∷ rows) dest =
    let p = partition r.minimum r.maximum r.priority r.mount_point r.filesystem r.logical_volume in
    partition_rounds_lem rows (dest ++ (p ∷ []))
    ∙ ap some (append_assoc dest (p ∷ []) (partitions rows))

length-row_values : (rows : List PartitionRow) → length (row_values rows) ≡ 6 * length rows
length-row_values [] = omega arith
length-row_values (r ∷ rows) = omega (arith, length-row_values rows)

-- For any number of rows, none included, `cbc_fill_partition_details` puts one partition for each row
-- behind those that the list holds, in the order of the rows, with the mount point cut after 256
-- characters, the file system after 16 and the logical volume after 32; every value is read as what it is.
pub fill_partition_lem :
    (rows : List PartitionRow) (dest : List Partition)
    → cbc_fill_partition_details (some (row_values rows)) (some dest)
      ≡ some (pos 0, some (dest ++ partitions rows))
unfolding cbc_fill_partition_details
fill_partition_lem rows dest =
    let l = length-row_values rows in
    let whole : (length (row_values rows) % 6 == 0) ≡ true = ground (arith, l) in
    rw (whole, partition_rounds_lem rows dest) refl

-- `ailsa_clone_data_element`, without the time of MySQL: the copy, and what the original is then. For
-- a value that is not a text the new union, all zero, is copied over the one of the original. The union
-- of a value of zero bytes reads as zero under its tag.
unfoldable pub ailsa_clone_data_element : Option DbData → Option (DbData × DbData)
ailsa_clone_data_element none = none
ailsa_clone_data_element (some (text t)) = some (text (strndup t config_len), text t)
ailsa_clone_data_element (some (lint n)) = some (lint 0, lint 0)
ailsa_clone_data_element (some (DbData.sint n)) = some (DbData.sint (pos 0), DbData.sint (pos 0))
ailsa_clone_data_element (some (DbData.point n)) = some (DbData.point 0, DbData.point 0)
ailsa_clone_data_element (some DbData.null) = some (DbData.null, DbData.null)
