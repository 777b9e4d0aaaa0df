-- ===== src/Sql/Basic.antt =====
-- lib/queries.c: `basic_queries`, which take no arguments.
use Prim.Native.String.{String}
use cmdb.Base.{List, [], ◌∷◌}

unfoldable pub basic_queries : List String
basic_queries =
    "SELECT s.name, c.coid FROM server s INNER JOIN customer c on c.cust_id = s.cust_id"
    ∷ "SELECT coid, name, city FROM customer ORDER BY coid"
    ∷ "SELECT vm_server, type FROM vm_server_hosts" ∷ "SELECT service, detail FROM service_type"
    ∷ "SELECT type, class FROM hard_type"
    ∷ "SELECT DISTINCT bo.os FROM build_os bo JOIN build_type bt ON bt.alias=bo.alias ORDER BY bo.os"
    ∷ "SELECT os, os_version, alias, arch, ver_alias, cuser, ctime FROM build_os ORDER BY os,  length(os_version), os_version"
    ∷ "SELECT varient_id, valias, varient, cuser, muser, ctime, mtime FROM varient"
    ∷ "SELECT DISTINCT alias FROM build_os"
    ∷ "SELECT p.package, p.os_id FROM packages p LEFT JOIN varient v ON v.varient_id = p.varient_id   WHERE valias = 'base' OR varient = 'base'"
    ∷ "SELECT locale_id FROM default_locale WHERE locale_id > 0"
    ∷ "SELECT locale_id, name FROM locale" ∷ "SELECT scheme_name, lvm from seed_schemes"
    ∷ "SELECT domain FROM build_domain"
    ∷ "SELECT domain, ns, start_ip, gateway, netmask from build_domain"
    ∷ "SELECT name, type, sec_dns, master FROM zones WHERE valid = 'yes'"
    ∷ "SELECT name FROM system_packages" ∷ "SELECT name FROM system_scripts"
    ∷ "SELECT name, type FROM zones" ∷ "SELECT name, valid, serial, type, master FROM zones"
    ∷ "SELECT net_range, prefix, valid, serial,type, master FROM rev_zones"
    ∷ "SELECT z.name, g.name, g.pri_ns, g.sec_ns, g.pri_dns, g.sec_dns  FROM glue_zones g LEFT JOIN zones z ON z.id = g.zone_id"
    ∷ "SELECT net_range, type, prefix FROM rev_zones"
    ∷ "SELECT type, net_range, pri_dns, sec_dns, master, prefix FROM rev_zones"
    ∷ "select name, domain from server s JOIN build b on b.server_id = s.server_id   JOIN build_ip bi ON bi.server_id = s.server_id   JOIN build_domain bd ON bd.bd_id = bi.bd_id;"
    ∷ "SELECT s.name, b.mac_addr, ip.ip, db.domain FROM build b  LEFT JOIN server s ON s.server_id = b.server_id  LEFT JOIN build_ip ip ON ip.ip_id = b.ip_id  LEFT JOIN build_domain db ON db.bd_id = ip.bd_id"
    ∷ "SELECT os_id FROM default_os" ∷ "SELECT def_scheme_id FROM default_scheme"
    ∷ "SELECT varient_id FROM default_varient" ∷ "SELECT bd_id FROM default_domain"
    ∷ "SELECT cust_id FROM default_customer"
    ∷ "SELECT os, os_version, arch FROM build_os WHERE os_id = (SELECT os_id FROM default_os)"
    ∷ "SELECT scheme_name FROM seed_schemes WHERE def_scheme_id = (SELECT def_scheme_id FROM default_scheme)"
    ∷ "SELECT varient FROM varient WHERE varient_id = (SELECT varient_id FROM default_varient)"
    ∷ "SELECT domain FROM build_domain WHERE bd_id = (SELECT bd_id FROM default_domain)"
    ∷ "SELECT coid, name FROM customer WHERE cust_id = (SELECT cust_id FROM default_customer)"
    ∷ "SELECT s.name, i.username, i.cuser, i.muser, i.ctime, i.mtime FROM server s   LEFT JOIN identity i WHERE s.server_id = i.server_id"
    ∷ "SELECT server_id, username, cuser, muser, ctime, mtime from identity" ∷ []
