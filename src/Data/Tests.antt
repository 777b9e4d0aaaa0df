-- ===== src/Data/Tests.antt =====
-- Reading back from a concrete list.
use cmdb.Base.{refl, some, ◌≡◌, none, some, List, [], ◌∷◌, ◌++◌, pos, arith}
use cmdb.Data.Partition.{
  PartitionRow, row_values, partitions, cbc_fill_partition_details, fill_partition_lem,
}
use cmdb.Data.Growing.{AilsaString, ailsa_init_string, ailsa_fill_string, fill_all}
use cmdb.Data.Filled.{Has, no_text, and_text, fill_all_lem}
use cmdb.Data.{codes, lint, text, DataList, cmdb_get_string_from_data_list}

abbrev row : DataList
row = lint 7 ∷ text (codes "web") ∷ []

second_of_row : cmdb_get_string_from_data_list (some row) 2 ≡ some (codes "web")
unfolding cmdb_get_string_from_data_list
second_of_row = refl

fill_all_example :
    Has (codes "ab" ++ codes "cd" ++ []) (fill_all (codes "ab" ∷ codes "cd" ∷ []) ailsa_init_string)
fill_all_example =
    fill_all_lem (codes "ab" ∷ codes "cd" ∷ [])
      (and_text (omega arith) (and_text (omega arith) no_text)) (omega arith)

abbrev small_block : AilsaString
small_block = record { string = codes "a"; len = 1; size = 2 }

small_block_overflows : ailsa_fill_string (codes "bcd") small_block ≡ none
unfolding ailsa_fill_string
small_block_overflows = refl

abbrev two_rows : List PartitionRow
two_rows =
    record {
      minimum = 100;
      maximum = 200;
      priority = 1;
      mount_point = codes "/boot";
      filesystem = codes "ext4";
      logical_volume = codes "boot";
    }
    ∷ record {
      minimum = 500;
      maximum = 900;
      priority = 2;
      mount_point = codes "/";
      filesystem = codes "ext4";
      logical_volume = codes "root";
    }
    ∷ []

fill_partition_example :
    cbc_fill_partition_details (some (row_values two_rows)) (some [])
    ≡ some (pos 0, some ([] ++ partitions two_rows))
fill_partition_example = fill_partition_lem two_rows []
