-- ===== src/Routes/Services.antt =====
-- The route tables of the services of the middle of the table: manyfaced/handlers/routes/,
-- routes_dbadmin.py, routes_docker.py, routes_mcp.py, routes_iot.py, routes_nginx_probe.py,
-- routes_atlassian.py, routes_spring.py, routes_aws_creds.py, routes_hnap.py, routes_squid.py,
-- routes_magento.py, routes_redis_admin.py, routes_solr.py, routes_plex.py, routes_jupyter.py.
use manyfaced_honeypot.Base.{List, [], ◌∷◌}
use manyfaced_honeypot.Routes.Entries.{
  Entry, exact, prefix, atlassian, aws, db_admin, docker, hnap, io_t, jupyter, magento, mcp,
  nginx_probe, plex, redis_admin, solr, spring, squid,
}

unfoldable pub dbadmin_routes : List Entry
dbadmin_routes =
    exact "/adminer" db_admin 1033 "dbadmin_adminer"
    ∷ exact "/adminer.php" db_admin 1033 "dbadmin_adminer_php"
    ∷ exact "/sqlbuddy" db_admin 1033 "dbadmin_sqlbuddy"
    ∷ exact "/myadmin" db_admin 1033 "dbadmin_myadmin"
    ∷ exact "/phpmyadmin" db_admin 1033 "dbadmin_phpmyadmin"
    ∷ exact "/dbadmin" db_admin 1033 "dbadmin_dbadmin"
    ∷ prefix "/dbadmin/" db_admin 1033 "dbadmin_dbadmin_slash"
    ∷ prefix "/db/" db_admin 1033 "dbadmin_db_slash"
    ∷ exact "/db/%2eenv" db_admin 1033 "dbadmin_env_encoded"
    ∷ []

unfoldable pub docker_routes : List Entry
docker_routes =
    exact "/v2/" docker 1032 "docker_v2_ping"
    ∷ exact "/v2/_catalog" docker 1032 "docker_catalog"
    ∷ exact "/version" docker 1032 "docker_version"
    ∷ exact "/info" docker 1032 "docker_info"
    ∷ prefix "/v2/" docker 1032 "docker_v2_prefix"
    ∷ prefix "/containers/" docker 1032 "docker_containers"
    ∷ prefix "/docker/" docker 1032 "docker_docker_prefix"
    ∷ []

unfoldable pub mcp_routes : List Entry
mcp_routes = exact "/mcp" mcp 1031 "mcp_0" ∷ exact "/sse" mcp 1036 "mcp_1" ∷ []

unfoldable pub iot_routes : List Entry
iot_routes =
    exact "/admin" io_t 1030 "iot_admin"
    ∷ exact "/login" io_t 1030 "iot_login"
    ∷ exact "/index.html" io_t 1030 "iot_index_html"
    ∷ prefix "/cgi-bin/" io_t 1030 "iot_cgi_bin"
    ∷ prefix "/upnp/" io_t 1030 "iot_upnp"
    ∷ prefix "/IoT/" io_t 1030 "iot_env"
    ∷ []

unfoldable pub nginx_probe_routes : List Entry
nginx_probe_routes =
    exact "/nginx_status" nginx_probe 1029 "nginx_probe_0"
    ∷ exact "/server-status" nginx_probe 1029 "nginx_probe_1"
    ∷ exact "/stub_status" nginx_probe 1029 "nginx_probe_2"
    ∷ exact "/status" nginx_probe 1029 "nginx_probe_3"
    ∷ []

unfoldable pub atlassian_routes : List Entry
atlassian_routes =
    exact "/login" atlassian 1026 "atlassian_login"
    ∷ exact "/confluence" atlassian 1026 "atlassian_confluence"
    ∷ exact "/wiki" atlassian 1026 "atlassian_wiki"
    ∷ exact "/jira" atlassian 1026 "atlassian_jira"
    ∷ prefix "/rest/" atlassian 1026 "atlassian_rest"
    ∷ prefix "/atlassian/" atlassian 1026 "atlassian_env"
    ∷ prefix "/secure/" atlassian 1026 "atlassian_secure"
    ∷ []

unfoldable pub spring_routes : List Entry
spring_routes =
    exact "/actuator" spring 1025 "spring_0"
    ∷ exact "/actuator/health" spring 1025 "spring_1"
    ∷ prefix "/actuator/health/" spring 1025 "spring_prefix_1"
    ∷ exact "/api/env" spring 1025 "spring_2"
    ∷ prefix "/api/env/" spring 1025 "spring_prefix_2"
    ∷ []

unfoldable pub aws_creds_routes : List Entry
aws_creds_routes =
    exact "/.aws/credentials" aws 1024 "aws_creds_0"
    ∷ prefix "/.aws/credentials/" aws 1024 "aws_creds_prefix_0"
    ∷ exact "/aws/credentials" aws 1024 "aws_creds_1"
    ∷ prefix "/aws/credentials/" aws 1024 "aws_creds_prefix_1"
    ∷ exact "/.env.aws" aws 1024 "aws_creds_2"
    ∷ []

unfoldable pub hnap_routes : List Entry
hnap_routes =
    exact "/HNAP1" hnap 1023 "hnap_hnap1"
    ∷ exact "/hnap1" hnap 1023 "hnap_hnap1_lower"
    ∷ exact "/HNAP1/" hnap 1023 "hnap_hnap1_slash"
    ∷ exact "/cgi-bin/HNAP1" hnap 1023 "hnap_cgi"
    ∷ exact "/PrivateHNAP" hnap 1023 "hnap_private"
    ∷ prefix "/HNAP1/" hnap 1023 "hnap_prefix"
    ∷ []

unfoldable pub squid_routes : List Entry
squid_routes =
    exact "/squid-internal-mgr/" squid 1022 "squid_mgr_root"
    ∷ exact "/squid-internal-mgr/menu" squid 1022 "squid_mgr_menu"
    ∷ exact "/squid-internal-mgr/info" squid 1022 "squid_mgr_info"
    ∷ exact "/cachemgr.cgi" squid 1022 "squid_cachemgr_cgi"
    ∷ prefix "/squid-internal-mgr/" squid 1022 "squid_mgr_prefix"
    ∷ prefix "/mgr/" squid 1022 "squid_mgr_alias_prefix"
    ∷ prefix "/cgi-bin/" squid 1022 "squid_cgi_bin_prefix"
    ∷ []

unfoldable pub magento_routes : List Entry
magento_routes =
    exact "/admin" magento 1021 "magento_admin"
    ∷ exact "/customer/account/login" magento 1021 "magento_customer_login"
    ∷ exact "/index.php/admin" magento 1021 "magento_index_admin"
    ∷ exact "/setup" magento 1021 "magento_setup"
    ∷ prefix "/magento/" magento 1021 "magento_prefix"
    ∷ prefix "/static/" magento 1021 "magento_static"
    ∷ []

unfoldable pub redis_admin_routes : List Entry
redis_admin_routes =
    exact "/redis-commander" redis_admin 1020 "redis_admin_commander"
    ∷ exact "/redis-insight" redis_admin 1020 "redis_admin_insight"
    ∷ exact "/api/config" redis_admin 1020 "redis_admin_api_config"
    ∷ prefix "/api/" redis_admin 1020 "redis_admin_api"
    ∷ prefix "/admin/" redis_admin 1020 "redis_admin_admin"
    ∷ prefix "/redis/" redis_admin 1020 "redis_admin_redis"
    ∷ []

unfoldable pub solr_routes : List Entry
solr_routes =
    exact "/solr" solr 1019 "solr_root"
    ∷ exact "/solr/admin/cores" solr 1019 "solr_cores"
    ∷ exact "/solr/admin/info/system" solr 1019 "solr_info_system"
    ∷ prefix "/solr/" solr 1019 "solr_prefix"
    ∷ prefix "/admin/" solr 1019 "solr_admin_prefix"
    ∷ []

unfoldable pub plex_routes : List Entry
plex_routes =
    exact "/web" plex 1017 "plex_web"
    ∷ exact "/:32400/web" plex 1017 "plex_32400_web"
    ∷ exact "/identity" plex 1017 "plex_identity"
    ∷ exact "/status/sessions" plex 1017 "plex_status_sessions"
    ∷ prefix "/myplex/" plex 1017 "plex_myplex"
    ∷ prefix "/library/" plex 1017 "plex_library"
    ∷ prefix "/plex/" plex 1017 "plex_env"
    ∷ []

unfoldable pub jupyter_routes : List Entry
jupyter_routes =
    exact "/jupyter" jupyter 1016 "jupyter_jupyter"
    ∷ exact "/login" jupyter 1016 "jupyter_login"
    ∷ exact "/lab" jupyter 1016 "jupyter_lab"
    ∷ exact "/tree" jupyter 1016 "jupyter_tree"
    ∷ exact "/api/contents" jupyter 1016 "jupyter_api_contents"
    ∷ prefix "/api/" jupyter 1016 "jupyter_api"
    ∷ prefix "/jupyter/" jupyter 1016 "jupyter_slash"
    ∷ prefix "/notebook" jupyter 1016 "jupyter_notebook"
    ∷ []
