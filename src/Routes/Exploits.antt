-- ===== src/Routes/Exploits.antt =====
-- The route tables of the exploit faces, Kubernetes and Next.js, which come first:
-- manyfaced/handlers/routes/, routes_exploit_cgi.py, routes_phpunit.py, routes_grafana.py,
-- routes_env_disc.py, routes_langflow.py, routes_kubernetes.py, routes_nextjs.py.
use manyfaced_honeypot.Base.{List, [], ◌∷◌}
use manyfaced_honeypot.Routes.Entries.{
  Entry, exact, prefix, env_disc, exploit_cgi, grafana, kubernetes, langflow, nextjs, php_unit,
}

unfoldable pub exploit_cgi_routes : List Entry
exploit_cgi_routes =
    prefix "/hndunblock.cgi" exploit_cgi 1035 "cgi_hndunblock"
    ∷ prefix "/tmunblock.cgi" exploit_cgi 1035 "cgi_tmunblock"
    ∷ prefix "/sysinfo.cgi" exploit_cgi 1035 "cgi_sysinfo"
    ∷ prefix "/setup.cgi" exploit_cgi 1035 "cgi_setup"
    ∷ prefix "/apply.cgi" exploit_cgi 1035 "cgi_apply"
    ∷ prefix "/login.cgi" exploit_cgi 1035 "cgi_login"
    ∷ prefix "/diag.cgi" exploit_cgi 1035 "cgi_diag"
    ∷ prefix "/index.php" exploit_cgi 1035 "php_exploit"
    ∷ prefix "/cgi-bin/" exploit_cgi 1035 "cgi_bin_prefix"
    ∷ exact "/cgi-bin" exploit_cgi 1035 "cgi_bin_exact"
    ∷ []

unfoldable pub phpunit_routes : List Entry
phpunit_routes =
    exact "/vendor/phpunit/phpunit/src/Util/PHP/eval-stdin.php" php_unit 1047 "phpunit_eval_stdin"
    ∷ exact "/phpunit" php_unit 1047 "phpunit_root"
    ∷ exact "/phpunit/phpunit" php_unit 1047 "phpunit_bin"
    ∷ exact "/phpunit/scratch.php" php_unit 1047 "phpunit_scratch"
    ∷ prefix "/phpunit/" php_unit 1047 "phpunit_prefix"
    ∷ prefix "/vendor/phpunit/" php_unit 1047 "phpunit_vendor_prefix"
    ∷ prefix "/admin/vendor/phpunit/" php_unit 1047 "phpunit_admin"
    ∷ prefix "/www/vendor/phpunit/" php_unit 1047 "phpunit_www"
    ∷ prefix "/yii/vendor/phpunit/" php_unit 1047 "phpunit_yii"
    ∷ prefix "/laravel/vendor/phpunit/" php_unit 1047 "phpunit_laravel"
    ∷ prefix "/app/vendor/phpunit/" php_unit 1047 "phpunit_app"
    ∷ prefix "/cms/vendor/phpunit/" php_unit 1047 "phpunit_cms"
    ∷ prefix "/lib/vendor/phpunit/" php_unit 1047 "phpunit_lib"
    ∷ prefix "/panel/vendor/phpunit/" php_unit 1047 "phpunit_panel"
    ∷ prefix "/public/vendor/phpunit/" php_unit 1047 "phpunit_public"
    ∷ prefix "/ws/vendor/phpunit/" php_unit 1047 "phpunit_ws"
    ∷ prefix "/demo/vendor/phpunit/" php_unit 1047 "phpunit_demo"
    ∷ prefix "/testing/vendor/phpunit/" php_unit 1047 "phpunit_testing"
    ∷ prefix "/tests/vendor/phpunit/" php_unit 1047 "phpunit_tests"
    ∷ prefix "/apps/vendor/phpunit/" php_unit 1047 "phpunit_apps"
    ∷ prefix "/backup/vendor/phpunit/" php_unit 1047 "phpunit_backup"
    ∷ prefix "/v2/vendor/phpunit/" php_unit 1047 "phpunit_v2"
    ∷ prefix "/blog/vendor/phpunit/" php_unit 1047 "phpunit_blog"
    ∷ prefix "/api/vendor/phpunit/" php_unit 1047 "phpunit_api"
    ∷ prefix "/zend/vendor/phpunit/" php_unit 1047 "phpunit_zend"
    ∷ prefix "/workspace/vendor/phpunit/" php_unit 1047 "phpunit_workspace"
    ∷ prefix "/crm/vendor/phpunit/" php_unit 1047 "phpunit_crm"
    ∷ prefix "/vercel/vendor/phpunit/" php_unit 1047 "phpunit_vercel"
    ∷ prefix "/lib/phpunit/" php_unit 1047 "phpunit_lib_phpunit"
    ∷ []

unfoldable pub grafana_routes : List Entry
grafana_routes =
    exact "/grafana" grafana 1018 "grafana_root"
    ∷ exact "/login" grafana 1018 "grafana_login"
    ∷ exact "/grafana/login" grafana 1018 "grafana_login_nested"
    ∷ exact "/api/org" grafana 1018 "grafana_api_org"
    ∷ prefix "/api/datasources" grafana 1018 "grafana_api_datasources"
    ∷ prefix "/api/search" grafana 1018 "grafana_api_search"
    ∷ prefix "/api/frontend" grafana 1018 "grafana_api_frontend"
    ∷ prefix "/api/users" grafana 1018 "grafana_api_users"
    ∷ prefix "/api/alerts" grafana 1018 "grafana_api_alerts"
    ∷ prefix "/api/annotations" grafana 1018 "grafana_api_annotations"
    ∷ prefix "/api/admin" grafana 1018 "grafana_api_admin"
    ∷ prefix "/api/login" grafana 1018 "grafana_api_login"
    ∷ prefix "/api/auth" grafana 1018 "grafana_api_auth"
    ∷ prefix "/api/dashboards" grafana 1018 "grafana_api_dashboards"
    ∷ prefix "/api/teams" grafana 1018 "grafana_api_teams"
    ∷ prefix "/api/folders" grafana 1018 "grafana_api_folders"
    ∷ prefix "/api/plugins" grafana 1018 "grafana_api_plugins"
    ∷ prefix "/api/prometheus" grafana 1018 "grafana_api_prometheus"
    ∷ prefix "/api/alertmanager" grafana 1018 "grafana_api_alertmanager"
    ∷ prefix "/grafana/" grafana 1018 "grafana_prefix"
    ∷ []

unfoldable pub env_disc_routes : List Entry
env_disc_routes =
    exact "/env" env_disc 1034 "env_disc_env"
    ∷ exact "/config.env" env_disc 1034 "env_disc_config_env"
    ∷ exact "/.env.example" env_disc 1034 "env_disc_env_example"
    ∷ exact "/configuration" env_disc 1034 "env_disc_configuration"
    ∷ prefix "/env/" env_disc 1034 "env_disc_env_prefix"
    ∷ exact "/admin/.env" env_disc 1034 "env_disc_admin_env"
    ∷ prefix "/admin/.env" env_disc 1034 "env_disc_admin_env_prefix"
    ∷ exact "/admin/phpinfo.php" env_disc 1034 "env_disc_admin_phpinfo"
    ∷ prefix "/admin/phpinfo" env_disc 1034 "env_disc_admin_phpinfo_prefix"
    ∷ exact "/admin/settings.json" env_disc 1034 "env_disc_admin_settings"
    ∷ prefix "/admin/database" env_disc 1034 "env_disc_admin_database"
    ∷ prefix "/admin/debug" env_disc 1034 "env_disc_admin_debug"
    ∷ prefix "/api/.env" env_disc 1034 "env_disc_api_env"
    ∷ prefix "/api/.git" env_disc 1034 "env_disc_api_git"
    ∷ prefix "/api/wp-config" env_disc 1034 "env_disc_api_wpconfig"
    ∷ prefix "/api/phpinfo" env_disc 1034 "env_disc_api_phpinfo"
    ∷ prefix "/api/email" env_disc 1034 "env_disc_api_email"
    ∷ prefix "/api/secrets" env_disc 1034 "env_disc_api_secrets"
    ∷ prefix "/api/config" env_disc 1034 "env_disc_api_config"
    ∷ prefix "/api/settings" env_disc 1034 "env_disc_api_settings"
    ∷ prefix "/api/database" env_disc 1034 "env_disc_api_database"
    ∷ prefix "/api/debug" env_disc 1034 "env_disc_api_debug"
    ∷ prefix "/api/admin" env_disc 1034 "env_disc_api_admin"
    ∷ prefix "/api/sql" env_disc 1034 "env_disc_api_sql"
    ∷ prefix "/api/json" env_disc 1034 "env_disc_api_json"
    ∷ prefix "/api/xmlrpc" env_disc 1034 "env_disc_api_xmlrpc"
    ∷ prefix "/api/web.config" env_disc 1034 "env_disc_api_webconfig"
    ∷ prefix "/api/.ht" env_disc 1034 "env_disc_api_ht"
    ∷ prefix "/api/composer" env_disc 1034 "env_disc_api_composer"
    ∷ prefix "/api/package" env_disc 1034 "env_disc_api_package"
    ∷ prefix "/api/redis" env_disc 1034 "env_disc_api_redis"
    ∷ prefix "/api/php.ini" env_disc 1034 "env_disc_api_phpini"
    ∷ []

unfoldable pub langflow_routes : List Entry
langflow_routes =
    exact "/login" langflow 1041 "langflow_login"
    ∷ exact "/api/v1/run" langflow 1041 "langflow_api_run"
    ∷ exact "/api/v1/flows" langflow 1041 "langflow_api_flows"
    ∷ exact "/api/v1/validate" langflow 1041 "langflow_api_validate"
    ∷ exact "/api/v1/upload" langflow 1041 "langflow_api_upload"
    ∷ []

unfoldable pub kubernetes_routes : List Entry
kubernetes_routes =
    exact "/api" kubernetes 1028 "k8s_api"
    ∷ exact "/api/v1" kubernetes 1028 "k8s_api_v1"
    ∷ exact "/api/v1/namespaces" kubernetes 1028 "k8s_api_v1_namespaces"
    ∷ exact "/healthz" kubernetes 1028 "k8s_healthz"
    ∷ exact "/readyz" kubernetes 1028 "k8s_readyz"
    ∷ exact "/apis" kubernetes 1028 "k8s_apis"
    ∷ prefix "/api/v1/" kubernetes 1028 "k8s_api_v1_prefix"
    ∷ prefix "/apis/" kubernetes 1028 "k8s_apis_prefix"
    ∷ exact "/dashboard" kubernetes 1028 "k8s_dashboard"
    ∷ prefix "/kubernetes/" kubernetes 1028 "k8s_dashboard_env"
    ∷ []

unfoldable pub nextjs_routes : List Entry
nextjs_routes =
    exact "/api/health" nextjs 1027 "nextjs_api_health"
    ∷ exact "/vercel" nextjs 1027 "nextjs_vercel"
    ∷ exact "/_next" nextjs 1027 "nextjs_next_exact"
    ∷ prefix "/_next/" nextjs 1027 "nextjs_next_prefix"
    ∷ prefix "/api/" nextjs 1027 "nextjs_api_prefix"
    ∷ prefix "/nextjs/" nextjs 1027 "nextjs_probe_prefix"
    ∷ []
