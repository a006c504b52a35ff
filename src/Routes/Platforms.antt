-- ===== src/Routes/Platforms.antt =====
-- The route tables of the platforms behind them: manyfaced/handlers/routes/, routes_rabbitmq.py,
-- routes_gitlab.py, routes_elasticsearch.py, routes_zabbix.py, routes_laravel.py,
-- routes_thinkphp.py, routes_elastic.py, routes_nginx.py.
use manyfaced_honeypot.Base.{List, [], ◌∷◌}
use manyfaced_honeypot.Routes.Entries.{
  Entry, exact, prefix, scoped, elastic, git_lab, laravel, nginx, rabbit_mq, think_php, zabbix,
}

unfoldable pub rabbitmq_routes : List Entry
rabbitmq_routes =
    exact "/api/overview" rabbit_mq 1015 "rabbitmq_api_overview"
    ∷ exact "/api/whoami" rabbit_mq 1015 "rabbitmq_api_whoami"
    ∷ exact "/api/queues" rabbit_mq 1015 "rabbitmq_api_queues"
    ∷ exact "/api/exchanges" rabbit_mq 1015 "rabbitmq_api_exchanges"
    ∷ exact "/api/connections" rabbit_mq 1015 "rabbitmq_api_connections"
    ∷ exact "/api/aliveness-test/%2f" rabbit_mq 1015 "rabbitmq_api_aliveness"
    ∷ exact "/" rabbit_mq 1015 "rabbitmq_root"
    ∷ exact "/cli" rabbit_mq 1015 "rabbitmq_cli_exact"
    ∷ prefix "/api/" rabbit_mq 1015 "rabbitmq_api"
    ∷ prefix "/cli/" rabbit_mq 1015 "rabbitmq_cli"
    ∷ prefix "/rabbitmq/" rabbit_mq 1015 "rabbitmq_env"
    ∷ []

unfoldable pub gitlab_routes : List Entry
gitlab_routes =
    exact "/users/sign_in" git_lab 1014 "gitlab_sign_in"
    ∷ exact "/api/v4/version" git_lab 1014 "gitlab_api_version"
    ∷ exact "/-/metrics" git_lab 1014 "gitlab_metrics"
    ∷ exact "/admin" git_lab 1014 "gitlab_admin"
    ∷ prefix "/api/v4/" git_lab 1014 "gitlab_api"
    ∷ prefix "/-/" git_lab 1014 "gitlab_dash"
    ∷ prefix "/gitlab/" git_lab 1014 "gitlab_gitlab"
    ∷ prefix "/explore" git_lab 1014 "gitlab_explore"
    ∷ prefix "/assets/" git_lab 1014 "gitlab_assets"
    ∷ []

unfoldable pub elasticsearch_routes : List Entry
elasticsearch_routes = scoped (
    exact "/" elastic 1013 "elasticsearch_root"
    ∷ exact "/_cat" elastic 1013 "elasticsearch_0"
    ∷ exact "/_search" elastic 1013 "elasticsearch_1"
    ∷ exact "/_cluster" elastic 1013 "elasticsearch_2"
    ∷ exact "/_nodes" elastic 1013 "elasticsearch_3"
    ∷ exact "/query" elastic 1013 "elasticsearch_4"
    ∷ prefix "/_cat/" elastic 1013 "elasticsearch_cat_prefix"
    ∷ prefix "/_cluster/" elastic 1013 "elasticsearch_cluster_prefix"
    ∷ prefix "/_nodes/" elastic 1013 "elasticsearch_nodes_prefix"
    ∷ prefix "/_search/" elastic 1013 "elasticsearch_search_prefix"
    ∷ prefix "/_xpack/" elastic 1013 "elasticsearch_xpack_prefix"
    ∷ prefix "/_snapshot/" elastic 1013 "elasticsearch_snapshot_prefix"
    ∷ prefix "/_license/" elastic 1013 "elasticsearch_license_prefix"
    ∷ prefix "/_sql/" elastic 1013 "elasticsearch_sql_prefix"
    ∷ prefix "/_bulk/" elastic 1013 "elasticsearch_bulk_prefix"
    ∷ prefix "/_plugin/" elastic 1013 "elasticsearch_plugin_prefix"
    ∷ prefix "/kibana" elastic 1013 "elasticsearch_kibana_prefix"
    ∷ prefix "/elasticsearch/" elastic 1013 "elasticsearch_env_prefix"
    ∷ prefix "/elastic/" elastic 1013 "elasticsearch_elastic_prefix"
    ∷ [])

unfoldable pub zabbix_routes : List Entry
zabbix_routes =
    exact "/zc" zabbix 1012 "zabbix_zc"
    ∷ exact "/zabbix.php" zabbix 1012 "zabbix_php"
    ∷ exact "/api_jsonrpc.php" zabbix 1012 "zabbix_api"
    ∷ exact "/evox/about" zabbix 1012 "zabbix_evox_about"
    ∷ prefix "/zabbix/" zabbix 1012 "zabbix_assets"
    ∷ []

unfoldable pub laravel_routes : List Entry
laravel_routes =
    exact "/_ignition/execute-solution" laravel 1011 "laravel_ignition_execute"
    ∷ exact "/_ignition" laravel 1011 "laravel_ignition_exact"
    ∷ prefix "/_ignition/" laravel 1011 "laravel_ignition_prefix"
    ∷ prefix "/laravel/core/" laravel 1011 "laravel_core_env"
    ∷ prefix "/laravel-app/src/" laravel 1011 "laravel_app_src_env"
    ∷ prefix "/laravel/" laravel 1011 "laravel_prefix"
    ∷ exact "/laravel" laravel 1011 "laravel_exact"
    ∷ prefix "/storage/logs/" laravel 1011 "laravel_storage_logs"
    ∷ prefix "/vendor/laravel/" laravel 1011 "laravel_vendor"
    ∷ []

unfoldable pub thinkphp_routes : List Entry
thinkphp_routes =
    exact "/index.php" think_php 1010 "thinkphp_index_php"
    ∷ exact "/public/index.php" think_php 1010 "thinkphp_public_index_php"
    ∷ prefix "/index.php" think_php 1010 "thinkphp_index_php_prefix"
    ∷ prefix "/public/index.php" think_php 1010 "thinkphp_public_index_php_prefix"
    ∷ prefix "/thinkphp" think_php 1010 "thinkphp_namespace"
    ∷ []

unfoldable pub elastic_routes : List Entry
elastic_routes = scoped (
    exact "/_cat" elastic 1013 "elastic_cat"
    ∷ exact "/_cluster/health" elastic 1013 "elastic_cluster_health"
    ∷ exact "/_nodes" elastic 1013 "elastic_nodes"
    ∷ exact "/_search" elastic 1013 "elastic_search"
    ∷ exact "/_xpack" elastic 1013 "elastic_xpack"
    ∷ exact "/_snapshot" elastic 1013 "elastic_snapshot"
    ∷ exact "/_license" elastic 1013 "elastic_license"
    ∷ exact "/kibana" elastic 1013 "elastic_kibana"
    ∷ exact "/app/kibana" elastic 1013 "elastic_app_kibana"
    ∷ exact "/_plugin/head" elastic 1013 "elastic_plugin_head"
    ∷ exact "/_sql" elastic 1013 "elastic_sql"
    ∷ exact "/_bulk" elastic 1013 "elastic_bulk"
    ∷ exact "/_aliases" elastic 1013 "elastic_aliases"
    ∷ exact "/_stats" elastic 1013 "elastic_stats"
    ∷ exact "/_status" elastic 1013 "elastic_status"
    ∷ exact "/_mapping" elastic 1013 "elastic_mapping"
    ∷ exact "/_all" elastic 1013 "elastic_all"
    ∷ exact "/elasticsearch/.env" elastic 1013 "elastic_es_env"
    ∷ exact "/elastic/.env" elastic 1013 "elastic_elastic_env"
    ∷ prefix "/_cat/" elastic 1013 "elastic_cat_prefix"
    ∷ prefix "/_cluster/" elastic 1013 "elastic_cluster_prefix"
    ∷ prefix "/_nodes/" elastic 1013 "elastic_nodes_prefix"
    ∷ prefix "/_search/" elastic 1013 "elastic_search_prefix"
    ∷ prefix "/_xpack/" elastic 1013 "elastic_xpack_prefix"
    ∷ prefix "/_snapshot/" elastic 1013 "elastic_snapshot_prefix"
    ∷ prefix "/_license/" elastic 1013 "elastic_license_prefix"
    ∷ prefix "/_sql/" elastic 1013 "elastic_sql_prefix"
    ∷ prefix "/_bulk/" elastic 1013 "elastic_bulk_prefix"
    ∷ prefix "/_aliases/" elastic 1013 "elastic_aliases_prefix"
    ∷ prefix "/_stats/" elastic 1013 "elastic_stats_prefix"
    ∷ prefix "/_status/" elastic 1013 "elastic_status_prefix"
    ∷ prefix "/_mapping/" elastic 1013 "elastic_mapping_prefix"
    ∷ prefix "/_all/" elastic 1013 "elastic_all_prefix"
    ∷ prefix "/_plugin/" elastic 1013 "elastic_plugin_prefix"
    ∷ prefix "/kibana" elastic 1013 "elastic_kibana_prefix"
    ∷ prefix "/elastic" elastic 1013 "elastic_elastic_prefix"
    ∷ [])

unfoldable pub nginx_routes : List Entry
nginx_routes =
    exact "/index.html" nginx 1029 "nginx_index"
    ∷ exact "/nginx_status" nginx 1029 "nginx_status"
    ∷ exact "/server-status" nginx 1029 "nginx_server_status"
    ∷ prefix "/api/" nginx 1029 "nginx_api"
    ∷ prefix "/nginx/" nginx 1029 "nginx_probe"
    ∷ []
