-- ===== src/Routes.antt =====
-- The route table of manyfaced/handlers/routes/__init__.py: the tables of the services in the order of
-- dispatch, then the fallback routes.
pub mod Entries
pub mod Exploits
pub mod Frameworks
pub mod Disclosure
pub mod Services
pub mod Platforms
pub mod Enterprise
pub mod Policy
pub mod Shadows
use manyfaced_honeypot.Base.{Bool, none, List, [], ◌∷◌, ◌++◌, map, Text, codes}
use manyfaced_honeypot.Router.{any_path, high_entropy, HandlerClass, Route}
use manyfaced_honeypot.Routes.Entries.{
  HandlerName, Entry, join, exact, not_found, generic, route_of,
}
use manyfaced_honeypot.Routes.Exploits.{
  exploit_cgi_routes, phpunit_routes, grafana_routes, env_disc_routes, langflow_routes,
  kubernetes_routes, nextjs_routes,
}
use manyfaced_honeypot.Routes.Frameworks.{
  wordpress_routes, phpmyadmin_routes, jenkins_routes, tomcat_routes, drupal_routes, cpanel_routes,
  bitrix_routes, webdav_routes,
}
use manyfaced_honeypot.Routes.Disclosure.{config_disclosure_routes}
use manyfaced_honeypot.Routes.Services.{
  dbadmin_routes, docker_routes, mcp_routes, iot_routes, nginx_probe_routes, atlassian_routes,
  spring_routes, aws_creds_routes, hnap_routes, squid_routes, magento_routes, redis_admin_routes,
  solr_routes, plex_routes, jupyter_routes,
}
use manyfaced_honeypot.Routes.Platforms.{
  rabbitmq_routes, gitlab_routes, elasticsearch_routes, zabbix_routes, laravel_routes,
  thinkphp_routes, elastic_routes, nginx_routes,
}
use manyfaced_honeypot.Routes.Enterprise.{
  joomla_routes, coldfusion_routes, fortinet_routes, citrix_routes, sharepoint_routes,
  splunk_routes,
}

-- everything above the fallback
unfoldable pub face_routes : List Entry
unfolding exploit_cgi_routes phpunit_routes grafana_routes env_disc_routes langflow_routes
    kubernetes_routes nextjs_routes wordpress_routes phpmyadmin_routes jenkins_routes tomcat_routes
    drupal_routes cpanel_routes bitrix_routes webdav_routes config_disclosure_routes dbadmin_routes
    docker_routes mcp_routes iot_routes nginx_probe_routes atlassian_routes spring_routes
    aws_creds_routes hnap_routes squid_routes magento_routes redis_admin_routes solr_routes
    plex_routes jupyter_routes rabbitmq_routes gitlab_routes elasticsearch_routes zabbix_routes
    laravel_routes thinkphp_routes elastic_routes nginx_routes joomla_routes coldfusion_routes
    fortinet_routes citrix_routes sharepoint_routes splunk_routes
face_routes = join (
    exploit_cgi_routes ∷ phpunit_routes ∷ grafana_routes ∷ env_disc_routes ∷ langflow_routes
    ∷ kubernetes_routes ∷ nextjs_routes ∷ wordpress_routes ∷ phpmyadmin_routes ∷ jenkins_routes
    ∷ tomcat_routes ∷ drupal_routes ∷ cpanel_routes ∷ bitrix_routes ∷ webdav_routes
    ∷ config_disclosure_routes ∷ dbadmin_routes ∷ docker_routes ∷ mcp_routes ∷ iot_routes
    ∷ nginx_probe_routes ∷ atlassian_routes ∷ spring_routes ∷ aws_creds_routes ∷ hnap_routes
    ∷ squid_routes ∷ magento_routes ∷ redis_admin_routes ∷ solr_routes ∷ plex_routes
    ∷ jupyter_routes ∷ rabbitmq_routes ∷ gitlab_routes ∷ elasticsearch_routes ∷ zabbix_routes
    ∷ laravel_routes ∷ thinkphp_routes ∷ elastic_routes ∷ nginx_routes ∷ joomla_routes
    ∷ coldfusion_routes ∷ fortinet_routes ∷ citrix_routes ∷ sharepoint_routes ∷ splunk_routes ∷ [])

abbrev pub fingerprint_route : (Text → Bool) → Entry
fingerprint_route is_random_probe = record {
  matcher = high_entropy is_random_probe;
  handler = not_found;
  detected_id = 4294967282;
  name = codes "fingerprint_404";
  ports = none;
}

abbrev pub favicon_route : Entry
favicon_route = exact "/favicon.ico" not_found 4294967282 "favicon_404"

abbrev pub catch_all_route : Entry
catch_all_route = record {
  matcher = any_path;
  handler = generic;
  detected_id = 4294967294;
  name = codes "catchall_monster_page";
  ports = none;
}

-- `ROUTES`
pub entries : (Text → Bool) → List Entry
entries is_random_probe =
    face_routes ++ (fingerprint_route is_random_probe ∷ favicon_route ∷ catch_all_route ∷ [])

pub routes : {S : Type 0} → (HandlerName → HandlerClass S) → (Text → Bool) → List (Route S)
unfolding entries
routes classes is_random_probe = map (route_of classes) (entries is_random_probe)
