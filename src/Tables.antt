-- ===== src/Tables.antt =====
-- The numbers of the queries in the tables of lib/queries.c that the modelled functions use
-- (include/ailsasql.h).
use cmdb.Base.{ℕ}

-- basic_queries
abbrev pub rev_zones_net_range : ℕ
rev_zones_net_range = 22

abbrev pub zone_name_types : ℕ
zone_name_types = 18

abbrev pub default_domain_details : ℕ
default_domain_details = 34

abbrev pub default_locale : ℕ
default_locale = 10

abbrev pub fwd_zone_config : ℕ
fwd_zone_config = 15

abbrev pub rev_zone_config : ℕ
rev_zone_config = 23

abbrev pub default_os : ℕ
default_os = 26

abbrev pub default_scheme : ℕ
default_scheme = 27

abbrev pub default_varient : ℕ
default_varient = 28

abbrev pub default_domain : ℕ
default_domain = 29

abbrev pub default_customer : ℕ
default_customer = 30

-- argument_queries
abbrev pub zone_type_on_name : ℕ
zone_type_on_name = 59

abbrev pub a_records_with_ip : ℕ
a_records_with_ip = 76

abbrev pub build_ip_on_build_domain_id : ℕ
build_ip_on_build_domain_id = 86

abbrev pub parent_zone_id_on_glue_zone : ℕ
parent_zone_id_on_glue_zone = 119

abbrev pub fqdn_pref_a_on_ip : ℕ
fqdn_pref_a_on_ip = 77

abbrev pub dup_ip_a_record : ℕ
dup_ip_a_record = 75

abbrev pub record_in_on_protocol : ℕ
record_in_on_protocol = 73

abbrev pub record_in_on_pri : ℕ
record_in_on_pri = 72

abbrev pub record_on_zone_and_host_and_a : ℕ
record_on_zone_and_host_and_a = 70

abbrev pub record_on_zone_and_host : ℕ
record_on_zone_and_host = 69

abbrev pub prefer_a_info_on_range : ℕ
prefer_a_info_on_range = 80

abbrev pub records_on_net_range : ℕ
records_on_net_range = 81

abbrev pub full_rev_records : ℕ
full_rev_records = 65

abbrev pub cust_id_on_coid : ℕ
cust_id_on_coid = 6

abbrev pub vm_server_id_on_name : ℕ
vm_server_id_on_name = 8

abbrev pub server_id_on_name : ℕ
server_id_on_name = 11

abbrev pub hardware_type_id_on_class : ℕ
hardware_type_id_on_class = 12

abbrev pub service_type_id_on_service : ℕ
service_type_id_on_service = 14

abbrev pub bt_id_on_alias : ℕ
bt_id_on_alias = 16

abbrev pub build_os_on_name_version : ℕ
build_os_on_name_version = 19

abbrev pub build_os_on_all : ℕ
build_os_on_all = 21

abbrev pub servers_with_builds_on_os_id : ℕ
servers_with_builds_on_os_id = 24

abbrev pub varient_id_on_variant_or_valias : ℕ
varient_id_on_variant_or_valias = 25

abbrev pub scheme_id_on_name : ℕ
scheme_id_on_name = 33

abbrev pub partition_id_on_seed_mount : ℕ
partition_id_on_seed_mount = 34

abbrev pub build_domain_id_on_domain : ℕ
build_domain_id_on_domain = 36

abbrev pub build_domain_overlap : ℕ
build_domain_overlap = 37

abbrev pub fwd_zone_id_on_zone_name : ℕ
fwd_zone_id_on_zone_name = 40

abbrev pub rev_zone_id_on_range : ℕ
rev_zone_id_on_range = 41

abbrev pub name_servers_on_name : ℕ
name_servers_on_name = 42

abbrev pub zone_soa_on_name : ℕ
zone_soa_on_name = 43

abbrev pub ns_mx_srv_records : ℕ
ns_mx_srv_records = 44

abbrev pub zone_records_on_name : ℕ
zone_records_on_name = 45

abbrev pub system_package_id : ℕ
system_package_id = 50

abbrev pub system_package_arg_id : ℕ
system_package_arg_id = 51

abbrev pub system_script_id_on_name : ℕ
system_script_id_on_name = 55

abbrev pub glue_zone_on_zone_name : ℕ
glue_zone_on_zone_name = 57

abbrev pub rev_soa_on_net_range : ℕ
rev_soa_on_net_range = 63

abbrev pub rev_records_on_net_range : ℕ
rev_records_on_net_range = 64

abbrev pub record_id_base : ℕ
record_id_base = 66

abbrev pub record_id_mx : ℕ
record_id_mx = 67

abbrev pub record_id_srv : ℕ
record_id_srv = 68

abbrev pub record_id_on_host_zone_type : ℕ
record_id_on_host_zone_type = 71

abbrev pub prefix_on_net_range : ℕ
prefix_on_net_range = 79

abbrev pub build_id_on_server_name : ℕ
build_id_on_server_name = 87

abbrev pub locale_id_from_name : ℕ
locale_id_from_name = 89

abbrev pub disk_id_on_server_name : ℕ
disk_id_on_server_name = 90

abbrev pub ip_id_on_server_name : ℕ
ip_id_on_server_name = 92

abbrev pub os_alias_on_os_name : ℕ
os_alias_on_os_name = 102

abbrev pub mirror_on_build_alias : ℕ
mirror_on_build_alias = 115

abbrev pub identity_id_on_server_user : ℕ
identity_id_on_server_user = 117

abbrev pub rev_zone_overlap : ℕ
rev_zone_overlap = 120

-- insert_queries
abbrev pub insert_build_ip : ℕ
insert_build_ip = 32

abbrev pub insert_pref_a : ℕ
insert_pref_a = 30

abbrev pub insert_glue_zone : ℕ
insert_glue_zone = 29

abbrev pub insert_reverse_record : ℕ
insert_reverse_record = 28

abbrev pub insert_record_srv : ℕ
insert_record_srv = 27

abbrev pub insert_record_mx : ℕ
insert_record_mx = 26

abbrev pub insert_record_base : ℕ
insert_record_base = 25

abbrev pub insert_forward_zone : ℕ
insert_forward_zone = 17

abbrev pub insert_forward_slave_zone : ℕ
insert_forward_slave_zone = 18

abbrev pub insert_reverse_zone : ℕ
insert_reverse_zone = 24

-- update_queries
abbrev pub set_rev_zone_updated : ℕ
set_rev_zone_updated = 9

abbrev pub set_fwd_zone_updated_on_name : ℕ
set_fwd_zone_updated_on_name = 8

abbrev pub set_fwd_zone_updated : ℕ
set_fwd_zone_updated = 7

abbrev pub fwd_zone_validate : ℕ
fwd_zone_validate = 3

abbrev pub fwd_zone_serial_update : ℕ
fwd_zone_serial_update = 4

abbrev pub rev_zone_validate : ℕ
rev_zone_validate = 5

abbrev pub rev_zone_serial_update : ℕ
rev_zone_serial_update = 6

-- delete_queries
abbrev pub delete_pref_a : ℕ
delete_pref_a = 19

abbrev pub delete_glue_zone : ℕ
delete_glue_zone = 18

abbrev pub delete_reverse_record : ℕ
delete_reverse_record = 17

abbrev pub delete_rec_proto : ℕ
delete_rec_proto = 16

abbrev pub delete_rec_pri : ℕ
delete_rec_pri = 15

abbrev pub delete_rec_type_host : ℕ
delete_rec_type_host = 14

abbrev pub delete_rev_zone : ℕ
delete_rev_zone = 13

abbrev pub delete_fwd_zone : ℕ
delete_fwd_zone = 12
