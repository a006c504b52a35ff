-- ===== src/Routes/Frameworks.antt =====
-- The route tables of the broad web frameworks and services: manyfaced/handlers/routes/,
-- routes_wordpress.py, routes_phpmyadmin.py, routes_jenkins.py, routes_tomcat.py,
-- routes_drupal.py, routes_cpanel.py, routes_bitrix.py, routes_webdav.py.
use manyfaced_honeypot.Base.{List, [], ◌∷◌}
use manyfaced_honeypot.Routes.Entries.{
  Entry, exact, prefix, bitrix, c_panel, drupal, jenkins, php_my_admin, tomcat, web_dav, word_press,
}

unfoldable pub wordpress_routes : List Entry
wordpress_routes =
    exact "/wp-login" word_press 1001 "wordpress_wp_login"
    ∷ prefix "/wp-login.php" word_press 1001 "wordpress_wp_login_php"
    ∷ exact "/wp-admin" word_press 1001 "wordpress_wp_admin"
    ∷ prefix "/wp-admin/" word_press 1001 "wordpress_wp_admin_slash"
    ∷ exact "/wp-content" word_press 1001 "wordpress_wp_content"
    ∷ prefix "/wp-content/" word_press 1001 "wordpress_wp_content_slash"
    ∷ exact "/wp-includes" word_press 1001 "wordpress_wp_includes"
    ∷ prefix "/wp-includes/" word_press 1001 "wordpress_wp_includes_slash"
    ∷ exact "/xmlrpc.php" word_press 1001 "wordpress_xmlrpc_php"
    ∷ exact "/wordpress" word_press 1001 "wordpress_wordpress"
    ∷ prefix "/wordpress/" word_press 1001 "wordpress_wordpress_slash"
    ∷ exact "/blog" word_press 1001 "wordpress_blog"
    ∷ prefix "/blog/" word_press 1001 "wordpress_blog_slash"
    ∷ []

unfoldable pub phpmyadmin_routes : List Entry
phpmyadmin_routes =
    exact "/phpmyadmin" php_my_admin 1002 "phpmyadmin_phpmyadmin"
    ∷ exact "/phpMyAdmin" php_my_admin 1002 "phpmyadmin_phpMyAdmin"
    ∷ exact "/pma" php_my_admin 1002 "phpmyadmin_pma"
    ∷ exact "/index.php" php_my_admin 1002 "phpmyadmin_index_php"
    ∷ prefix "/phpmyadmin/" php_my_admin 1002 "phpmyadmin_phpmyadmin_slash"
    ∷ prefix "/pma/" php_my_admin 1002 "phpmyadmin_pma_slash"
    ∷ exact "/mysql" php_my_admin 1002 "phpmyadmin_mysql"
    ∷ prefix "/mysql/" php_my_admin 1002 "phpmyadmin_mysql_slash"
    ∷ exact "/mysql/index.php" php_my_admin 1002 "phpmyadmin_mysql_index_php"
    ∷ exact "/db" php_my_admin 1002 "phpmyadmin_db"
    ∷ prefix "/db/" php_my_admin 1002 "phpmyadmin_db_slash"
    ∷ exact "/db/index.php" php_my_admin 1002 "phpmyadmin_db_index_php"
    ∷ exact "/database" php_my_admin 1002 "phpmyadmin_database"
    ∷ prefix "/database/" php_my_admin 1002 "phpmyadmin_database_slash"
    ∷ exact "/database/index.php" php_my_admin 1002 "phpmyadmin_database_index_php"
    ∷ []

unfoldable pub jenkins_routes : List Entry
jenkins_routes =
    exact "/jenkins" jenkins 1003 "jenkins_jenkins"
    ∷ prefix "/jenkins/" jenkins 1003 "jenkins_jenkins_slash"
    ∷ exact "/jenkins/login" jenkins 1003 "jenkins_login"
    ∷ exact "/jenkins/script" jenkins 1003 "jenkins_script"
    ∷ exact "/jenkins/manage" jenkins 1003 "jenkins_manage"
    ∷ exact "/jenkins/api" jenkins 1003 "jenkins_api"
    ∷ exact "/jenkins/computer" jenkins 1003 "jenkins_computer"
    ∷ exact "/jenkins/view" jenkins 1003 "jenkins_view"
    ∷ exact "/jenkins/job" jenkins 1003 "jenkins_job"
    ∷ exact "/hudson" jenkins 1003 "jenkins_hudson"
    ∷ prefix "/hudson/" jenkins 1003 "jenkins_hudson_slash"
    ∷ exact "/hudson/login" jenkins 1003 "jenkins_hudson_login"
    ∷ []

unfoldable pub tomcat_routes : List Entry
tomcat_routes =
    exact "/manager" tomcat 1004 "tomcat_manager"
    ∷ prefix "/manager/" tomcat 1004 "tomcat_manager_slash"
    ∷ exact "/manager/html" tomcat 1004 "tomcat_manager_html"
    ∷ exact "/host-manager" tomcat 1004 "tomcat_host_manager"
    ∷ prefix "/host-manager/" tomcat 1004 "tomcat_host_manager_slash"
    ∷ exact "/host-manager/html" tomcat 1 "tomcat_host_manager_html"
    ∷ exact "/tomcat" tomcat 1004 "tomcat_tomcat"
    ∷ prefix "/tomcat/" tomcat 1004 "tomcat_tomcat_slash"
    ∷ exact "/server-status" tomcat 1004 "tomcat_server_status"
    ∷ exact "/server-info" tomcat 1004 "tomcat_server_info"
    ∷ exact "/jmxproxy" tomcat 1004 "tomcat_jmx_proxy"
    ∷ prefix "/jmxproxy/" tomcat 1004 "tomcat_jmx_proxy_slash"
    ∷ exact "/examples" tomcat 1004 "tomcat_examples"
    ∷ prefix "/examples/" tomcat 1004 "tomcat_examples_slash"
    ∷ exact "/ROOT" tomcat 1004 "tomcat_root"
    ∷ prefix "/ROOT/" tomcat 1004 "tomcat_root_slash"
    ∷ []

unfoldable pub drupal_routes : List Entry
drupal_routes =
    exact "/user" drupal 1005 "drupal_user"
    ∷ prefix "/user/" drupal 1005 "drupal_user_slash"
    ∷ exact "/user/login" drupal 1005 "drupal_user_login"
    ∷ exact "/user/register" drupal 1005 "drupal_user_register"
    ∷ exact "/admin" drupal 1005 "drupal_admin"
    ∷ prefix "/admin/content/" drupal 1005 "drupal_admin_content"
    ∷ prefix "/admin/structure/" drupal 1005 "drupal_admin_structure"
    ∷ prefix "/admin/config/" drupal 1005 "drupal_admin_config_prefix"
    ∷ prefix "/admin/people/" drupal 1005 "drupal_admin_people"
    ∷ prefix "/admin/modules/" drupal 1005 "drupal_admin_modules"
    ∷ prefix "/admin/themes/" drupal 1005 "drupal_admin_themes"
    ∷ prefix "/admin/reports/" drupal 1005 "drupal_admin_reports"
    ∷ prefix "/admin/appearance/" drupal 1005 "drupal_admin_appearance"
    ∷ prefix "/admin/help/" drupal 1005 "drupal_admin_help"
    ∷ prefix "/admin/tasks/" drupal 1005 "drupal_admin_tasks"
    ∷ exact "/admin/config" drupal 1005 "drupal_admin_config"
    ∷ exact "/node" drupal 1005 "drupal_node"
    ∷ prefix "/node/" drupal 1005 "drupal_node_slash"
    ∷ exact "/sites" drupal 1005 "drupal_sites"
    ∷ prefix "/sites/" drupal 1005 "drupal_sites_slash"
    ∷ exact "/sites/default" drupal 1 "drupal_sites_default"
    ∷ exact "/drupal" drupal 1005 "drupal_drupal"
    ∷ prefix "/drupal/" drupal 1005 "drupal_drupal_slash"
    ∷ exact "/files" drupal 1005 "drupal_files"
    ∷ prefix "/files/" drupal 1005 "drupal_files_slash"
    ∷ []

unfoldable pub cpanel_routes : List Entry
cpanel_routes =
    exact "/cpanel" c_panel 1006 "cpanel_cpanel"
    ∷ prefix "/cpanel/" c_panel 1006 "cpanel_cpanel_slash"
    ∷ exact "/cpanel/hotlinkprotect" c_panel 1 "cpanel_hotlinkprotect"
    ∷ exact "/whm" c_panel 1006 "cpanel_whm"
    ∷ prefix "/whm/" c_panel 1006 "cpanel_whm_slash"
    ∷ exact "/whm/login" c_panel 1006 "cpanel_whm_login"
    ∷ exact "/webmail" c_panel 1006 "cpanel_webmail"
    ∷ prefix "/webmail/" c_panel 1006 "cpanel_webmail_slash"
    ∷ exact "/webmail/login" c_panel 1006 "cpanel_webmail_login"
    ∷ exact "/mail" c_panel 1006 "cpanel_mail"
    ∷ prefix "/mail/" c_panel 1006 "cpanel_mail_slash"
    ∷ exact "/webdisk" c_panel 1006 "cpanel_webdisk"
    ∷ prefix "/webdisk/" c_panel 1006 "cpanel_webdisk_slash"
    ∷ exact "/cpsess" c_panel 1006 "cpanel_cpsess"
    ∷ exact "/setup1" c_panel 1006 "cpanel_setup1"
    ∷ prefix "/setup1/" c_panel 1006 "cpanel_setup1_slash"
    ∷ exact "/~" c_panel 1006 "cpanel_tilde"
    ∷ []

unfoldable pub bitrix_routes : List Entry
bitrix_routes =
    exact "/bitrix/admin" bitrix 1007 "bitrix_admin"
    ∷ prefix "/bitrix/admin/" bitrix 1007 "bitrix_admin_slash"
    ∷ prefix "/bitrix/auth/" bitrix 1007 "bitrix_auth"
    ∷ exact "/bitrix/auth" bitrix 1007 "bitrix_auth_exact"
    ∷ prefix "/bitrix/setup/" bitrix 1007 "bitrix_setup"
    ∷ prefix "/bitrix/tools/" bitrix 1007 "bitrix_tools"
    ∷ exact "/bitrix" bitrix 1007 "bitrix_bitrix"
    ∷ prefix "/bitrix/" bitrix 1007 "bitrix_slash"
    ∷ []

unfoldable pub webdav_routes : List Entry
webdav_routes =
    exact "/webdav" web_dav 1008 "webdav_root"
    ∷ prefix "/webdav/" web_dav 1008 "webdav_root_slash"
    ∷ exact "/dav" web_dav 1008 "webdav_dav"
    ∷ prefix "/dav/" web_dav 1008 "webdav_dav_slash"
    ∷ exact "/remote.php" web_dav 1008 "webdav_remote_php"
    ∷ prefix "/remote.php/" web_dav 1008 "webdav_remote_php_slash"
    ∷ exact "/owncloud" web_dav 1008 "webdav_owncloud"
    ∷ prefix "/owncloud/" web_dav 1008 "webdav_owncloud_slash"
    ∷ exact "/caldav" web_dav 1008 "webdav_caldav"
    ∷ prefix "/caldav/" web_dav 1008 "webdav_caldav_slash"
    ∷ exact "/carddav" web_dav 1008 "webdav_carddav"
    ∷ prefix "/carddav/" web_dav 1008 "webdav_carddav_slash"
    ∷ exact "/web" web_dav 1008 "webdav_web"
    ∷ prefix "/web/" web_dav 1008 "webdav_web_slash"
    ∷ []
