-- ===== src/Routes/Enterprise.antt =====
-- The route tables of the last faces before the fallback: manyfaced/handlers/routes/,
-- routes_joomla.py, routes_coldfusion.py, routes_fortinet.py, routes_citrix.py,
-- routes_sharepoint.py, routes_splunk.py.
use manyfaced_honeypot.Base.{List, [], ◌∷◌}
use manyfaced_honeypot.Routes.Entries.{
  Entry, exact, prefix, citrix, cold_fusion, fortinet, joomla, share_point, splunk,
}

unfoldable pub joomla_routes : List Entry
joomla_routes =
    exact "/administrator" joomla 1040 "joomla_admin"
    ∷ prefix "/administrator/" joomla 1040 "joomla_admin_slash"
    ∷ prefix "/index.php" joomla 1040 "joomla_sppagebuilder"
    ∷ exact "/index.php" joomla 1040 "joomla_index_php"
    ∷ prefix "/templates" joomla 1040 "joomla_templates"
    ∷ prefix "/components" joomla 1040 "joomla_components"
    ∷ prefix "/api" joomla 1040 "joomla_api"
    ∷ prefix "/language" joomla 1040 "joomla_language"
    ∷ []

unfoldable pub coldfusion_routes : List Entry
coldfusion_routes =
    exact "/cfide/administrator/" cold_fusion 1042 "coldfusion_admin"
    ∷ prefix "/cfide/administrator/" cold_fusion 1042 "coldfusion_admin_slash"
    ∷ exact "/administrator/" cold_fusion 1042 "coldfusion_administrator"
    ∷ prefix "/administrator/" cold_fusion 1042 "coldfusion_administrator_slash"
    ∷ exact "/cfide/" cold_fusion 1042 "coldfusion_cfide"
    ∷ prefix "/cfide/" cold_fusion 1042 "coldfusion_cfide_slash"
    ∷ exact "/ccm/" cold_fusion 1042 "coldfusion_ccm"
    ∷ prefix "/ccm/" cold_fusion 1042 "coldfusion_ccm_slash"
    ∷ exact "/cfusion/" cold_fusion 1042 "coldfusion_cfusion"
    ∷ prefix "/cfusion/" cold_fusion 1042 "coldfusion_cfusion_slash"
    ∷ prefix "/cf_scripts/" cold_fusion 1042 "coldfusion_cf_scripts"
    ∷ []

unfoldable pub fortinet_routes : List Entry
fortinet_routes =
    exact "/remote/login" fortinet 1043 "fortinet_sslvpn_login"
    ∷ exact "/remote/logincheck" fortinet 1043 "fortinet_sslvpn_logincheck"
    ∷ exact "/remote/logout" fortinet 1043 "fortinet_sslvpn_logout"
    ∷ prefix "/api/v2/" fortinet 1043 "fortinet_fortigate_api"
    ∷ exact "/jsonrpc" fortinet 1043 "fortinet_fmgr_jsonrpc"
    ∷ []

unfoldable pub citrix_routes : List Entry
citrix_routes =
    exact "/vpn/index.html" citrix 1044 "citrix_gateway_login"
    ∷ exact "/cgi/login" citrix 1044 "citrix_cgi_login"
    ∷ prefix "/nf/" citrix 1044 "citrix_nf_auth"
    ∷ prefix "/logon/" citrix 1044 "citrix_logon_point"
    ∷ prefix "/pcidss/" citrix 1044 "citrix_cve_2026_3055_pcidss"
    ∷ prefix "/oauth" citrix 1044 "citrix_cve_2026_3055_oauth"
    ∷ prefix "/saml" citrix 1044 "citrix_cve_2026_3055_saml"
    ∷ []

unfoldable pub sharepoint_routes : List Entry
sharepoint_routes =
    prefix "/_layouts/" share_point 1045 "sharepoint_layouts"
    ∷ prefix "/_api/" share_point 1045 "sharepoint_api"
    ∷ prefix "/_vti_bin/" share_point 1045 "sharepoint_vti_bin"
    ∷ prefix "/webservices/" share_point 1045 "sharepoint_webservices"
    ∷ exact "/login" share_point 1045 "sharepoint_login"
    ∷ []

unfoldable pub splunk_routes : List Entry
splunk_routes =
    exact "/en-US/" splunk 1046 "splunk_web_landing"
    ∷ exact "/en-US/account/login" splunk 1046 "splunk_web_login"
    ∷ exact "/services/auth/login" splunk 1046 "splunk_auth_login"
    ∷ exact "/services/search/jobs" splunk 1046 "splunk_search_jobs"
    ∷ prefix "/servicesNS/" splunk 1046 "splunk_servicesns"
    ∷ prefix "/api/" splunk 1046 "splunk_api"
    ∷ []
