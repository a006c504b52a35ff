-- ===== src/Routes/Disclosure.antt =====
-- The route tables of the configuration files: manyfaced/handlers/routes/,
-- routes_config_disclosure.py.
use manyfaced_honeypot.Base.{List, [], ◌∷◌, ◌++◌}
use manyfaced_honeypot.Routes.Entries.{Entry, exact, prefix, config_disclosure}

abbrev pub config_app_routes : List Entry
config_app_routes =
    exact "/wp-config.php" config_disclosure 1009 "config_wp_config_php"
    ∷ exact "/wp-config.php.bak" config_disclosure 1009 "config_wp_config_bak"
    ∷ exact "/wp-config.php.old" config_disclosure 1009 "config_wp_config_old"
    ∷ exact "/wp-config.php.dist" config_disclosure 1009 "config_wp_config_dist"
    ∷ exact "/wp-config.php.txt" config_disclosure 1009 "config_wp_config_txt"
    ∷ exact "/config.php" config_disclosure 1009 "config_php"
    ∷ exact "/config.php.bak" config_disclosure 1009 "config_php_bak"
    ∷ exact "/config.php.old" config_disclosure 1009 "config_php_old"
    ∷ exact "/configuration.php" config_disclosure 1009 "config_configuration_php"
    ∷ exact "/configuration.php.bak" config_disclosure 1009 "config_configuration_bak"
    ∷ exact "/settings.py" config_disclosure 1009 "config_settings_py"
    ∷ exact "/settings.py.bak" config_disclosure 1009 "config_settings_bak"
    ∷ exact "/settings.py.old" config_disclosure 1009 "config_settings_old"
    ∷ exact "/database.yml" config_disclosure 1009 "config_database_yml"
    ∷ exact "/database.yml.bak" config_disclosure 1009 "config_database_bak"
    ∷ exact "/config.json" config_disclosure 1009 "config_json"
    ∷ exact "/config.json.bak" config_disclosure 1009 "config_json_bak"
    ∷ exact "/.env" config_disclosure 1009 "config_env"
    ∷ exact "/.env.bak" config_disclosure 1009 "config_env_bak"
    ∷ exact "/.env.local" config_disclosure 1009 "config_env_local"
    ∷ exact "/.env.prod" config_disclosure 1009 "config_env_prod"
    ∷ exact "/.env.example" config_disclosure 1009 "config_env_example"
    ∷ exact "/.env.sample" config_disclosure 1009 "config_env_sample"
    ∷ exact "/.htaccess" config_disclosure 1009 "config_htaccess"
    ∷ exact "/.htaccess.bak" config_disclosure 1009 "config_htaccess_bak"
    ∷ exact "/.htaccess.old" config_disclosure 1009 "config_htaccess_old"
    ∷ exact "/.htpasswd" config_disclosure 1009 "config_htpasswd"
    ∷ exact "/.htpasswd.bak" config_disclosure 1009 "config_htpasswd_bak"
    ∷ []

abbrev pub config_framework_routes : List Entry
config_framework_routes =
    exact "/xmlrpc.php" config_disclosure 1009 "config_xmlrpc_php"
    ∷ exact "/xmlrpc.php.bak" config_disclosure 1009 "config_xmlrpc_bak"
    ∷ exact "/web.config" config_disclosure 1009 "config_web_config"
    ∷ exact "/web.config.bak" config_disclosure 1009 "config_web_config_bak"
    ∷ exact "/conf.php" config_disclosure 1009 "config_conf_php"
    ∷ exact "/conf.php.bak" config_disclosure 1009 "config_conf_bak"
    ∷ exact "/db.php" config_disclosure 1009 "config_db_php"
    ∷ exact "/db.php.bak" config_disclosure 1009 "config_db_bak"
    ∷ exact "/local.php" config_disclosure 1009 "config_local_php"
    ∷ exact "/local.php.bak" config_disclosure 1009 "config_local_bak"
    ∷ exact "/app.config" config_disclosure 1009 "config_app_config"
    ∷ exact "/app.config.bak" config_disclosure 1009 "config_app_bak"
    ∷ exact "/application.ini" config_disclosure 1009 "config_application_ini"
    ∷ exact "/application.ini.bak" config_disclosure 1009 "config_application_bak"
    ∷ exact "/globals.php" config_disclosure 1009 "config_globals_php"
    ∷ exact "/globals.php.bak" config_disclosure 1009 "config_globals_bak"
    ∷ exact "/initialize.php" config_disclosure 1009 "config_initialize_php"
    ∷ exact "/initialize.php.bak" config_disclosure 1009 "config_initialize_bak"
    ∷ exact "/constants.php" config_disclosure 1009 "config_constants_php"
    ∷ exact "/constants.php.bak" config_disclosure 1009 "config_constants_bak"
    ∷ exact "/parameters.yml" config_disclosure 1009 "config_parameters_yml"
    ∷ exact "/parameters.yml.dist" config_disclosure 1009 "config_parameters_dist"
    ∷ exact "/service.yml" config_disclosure 1009 "config_service_yml"
    ∷ exact "/service.yml.bak" config_disclosure 1009 "config_service_bak"
    ∷ exact "/doctrine.yml" config_disclosure 1009 "config_doctrine_yml"
    ∷ exact "/doctrine.yml.bak" config_disclosure 1009 "config_doctrine_bak"
    ∷ exact "/routing.yml" config_disclosure 1009 "config_routing_yml"
    ∷ exact "/routing.yml.bak" config_disclosure 1009 "config_routing_bak"
    ∷ []

abbrev pub config_build_routes : List Entry
config_build_routes =
    exact "/security.yml" config_disclosure 1009 "config_security_yml"
    ∷ exact "/security.yml.bak" config_disclosure 1009 "config_security_bak"
    ∷ exact "/appsettings.json" config_disclosure 1009 "config_appsettings_json"
    ∷ exact "/appsettings.json.bak" config_disclosure 1009 "config_appsettings_bak"
    ∷ exact "/package.json" config_disclosure 1009 "config_package_json"
    ∷ exact "/package.json.bak" config_disclosure 1009 "config_package_bak"
    ∷ exact "/composer.json" config_disclosure 1009 "config_composer_json"
    ∷ exact "/composer.json.bak" config_disclosure 1009 "config_composer_bak"
    ∷ exact "/Gemfile" config_disclosure 1009 "config_gemfile"
    ∷ exact "/Gemfile.lock" config_disclosure 1009 "config_gemfile_lock"
    ∷ exact "/pip.conf" config_disclosure 1009 "config_pip_conf"
    ∷ exact "/pip.conf.bak" config_disclosure 1009 "config_pip_bak"
    ∷ exact "/requirements.txt" config_disclosure 1009 "config_requirements_txt"
    ∷ exact "/requirements.txt.bak" config_disclosure 1009 "config_requirements_bak"
    ∷ exact "/setup.cfg" config_disclosure 1009 "config_setup_cfg"
    ∷ exact "/setup.cfg.bak" config_disclosure 1009 "config_setup_bak"
    ∷ exact "/tox.ini" config_disclosure 1009 "config_tox_ini"
    ∷ exact "/tox.ini.bak" config_disclosure 1009 "config_tox_bak"
    ∷ exact "/Makefile" config_disclosure 1009 "config_makefile"
    ∷ exact "/Makefile.bak" config_disclosure 1009 "config_makefile_bak"
    ∷ exact "/Dockerfile" config_disclosure 1009 "config_dockerfile"
    ∷ exact "/Dockerfile.bak" config_disclosure 1009 "config_dockerfile_bak"
    ∷ exact "/docker-compose.yml" config_disclosure 1009 "config_docker_compose_yml"
    ∷ exact "/docker-compose.yml.bak" config_disclosure 1009 "config_docker_compose_bak"
    ∷ exact "/nginx.conf" config_disclosure 1009 "config_nginx_conf"
    ∷ exact "/nginx.conf.bak" config_disclosure 1009 "config_nginx_bak"
    ∷ exact "/apache.conf" config_disclosure 1009 "config_apache_conf"
    ∷ exact "/apache.conf.bak" config_disclosure 1009 "config_apache_bak"
    ∷ []

abbrev pub config_server_routes : List Entry
config_server_routes =
    exact "/httpd.conf" config_disclosure 1009 "config_httpd_conf"
    ∷ exact "/httpd.conf.bak" config_disclosure 1009 "config_httpd_bak"
    ∷ exact "/my.cnf" config_disclosure 1009 "config_my_cnf"
    ∷ exact "/my.cnf.bak" config_disclosure 1009 "config_my_cnf_bak"
    ∷ exact "/mysqld.cnf" config_disclosure 1009 "config_mysqld_cnf"
    ∷ exact "/postgresql.conf" config_disclosure 1009 "config_postgresql_conf"
    ∷ exact "/postgresql.conf.bak" config_disclosure 1009 "config_postgresql_bak"
    ∷ exact "/redis.conf" config_disclosure 1009 "config_redis_conf"
    ∷ exact "/redis.conf.bak" config_disclosure 1009 "config_redis_bak"
    ∷ exact "/php.ini" config_disclosure 1009 "config_php_ini"
    ∷ exact "/php.ini.bak" config_disclosure 1009 "config_php_ini_bak"
    ∷ exact "/phpinfo.php" config_disclosure 1009 "config_phpinfo_php"
    ∷ exact "/phpinfo.php.bak" config_disclosure 1009 "config_phpinfo_bak"
    ∷ exact "/admin/phpinfo.php" config_disclosure 1009 "config_admin_phpinfo"
    ∷ exact "/admin/info.php" config_disclosure 1009 "config_admin_info"
    ∷ exact "/admin/phpinfo.php.bak" config_disclosure 1009 "config_admin_phpinfo_bak"
    ∷ exact "/info.php" config_disclosure 1009 "config_info_php"
    ∷ exact "/info.php.bak" config_disclosure 1009 "config_info_bak"
    ∷ exact "/test.php" config_disclosure 1009 "config_test_php"
    ∷ exact "/test.php.bak" config_disclosure 1009 "config_test_bak"
    ∷ exact "/debug.php" config_disclosure 1009 "config_debug_php"
    ∷ exact "/debug.php.bak" config_disclosure 1009 "config_debug_bak"
    ∷ exact "/console.php" config_disclosure 1009 "config_console_php"
    ∷ exact "/console.php.bak" config_disclosure 1009 "config_console_bak"
    ∷ exact "/cli.php" config_disclosure 1009 "config_cli_php"
    ∷ exact "/cli.php.bak" config_disclosure 1009 "config_cli_bak"
    ∷ []

abbrev pub config_backup_routes : List Entry
config_backup_routes =
    exact "/install.php" config_disclosure 1009 "config_install_php"
    ∷ exact "/install.php.bak" config_disclosure 1009 "config_install_bak"
    ∷ exact "/upgrade.php" config_disclosure 1009 "config_upgrade_php"
    ∷ exact "/upgrade.php.bak" config_disclosure 1009 "config_upgrade_bak"
    ∷ exact "/backup.sql" config_disclosure 1009 "config_backup_sql"
    ∷ exact "/backup.sql.bak" config_disclosure 1009 "config_backup_bak"
    ∷ exact "/dump.sql" config_disclosure 1009 "config_dump_sql"
    ∷ exact "/dump.sql.bak" config_disclosure 1009 "config_dump_bak"
    ∷ exact "/database.sql" config_disclosure 1009 "config_database_sql"
    ∷ exact "/database.sql.bak" config_disclosure 1009 "config_database_bak"
    ∷ exact "/db.sql" config_disclosure 1009 "config_db_sql"
    ∷ exact "/db.sql.bak" config_disclosure 1009 "config_db_bak"
    ∷ exact "/dump.sql.gz" config_disclosure 1009 "config_dump_gz"
    ∷ exact "/dump.sql.zip" config_disclosure 1009 "config_dump_zip"
    ∷ exact "/backup.tar.gz" config_disclosure 1009 "config_backup_tar_gz"
    ∷ exact "/backup.zip" config_disclosure 1009 "config_backup_zip"
    ∷ prefix "/sql/" config_disclosure 1009 "config_sql_dir"
    ∷ prefix "/mysql/" config_disclosure 1009 "config_mysql_dir"
    ∷ prefix "/postgres/" config_disclosure 1009 "config_postgres_dir"
    ∷ exact "/.git/config" config_disclosure 1009 "config_git_config"
    ∷ exact "/.git/head" config_disclosure 1009 "config_git_head"
    ∷ exact "/.git/index" config_disclosure 1009 "config_git_index"
    ∷ exact "/security.txt" config_disclosure 1009 "config_security_txt"
    ∷ exact "/.well-known/security.txt" config_disclosure 1009 "config_well_known_security_txt"
    ∷ []

unfoldable pub config_disclosure_routes : List Entry
config_disclosure_routes =
    config_app_routes
    ++ (config_framework_routes
        ++ (config_build_routes ++ (config_server_routes ++ config_backup_routes)))
