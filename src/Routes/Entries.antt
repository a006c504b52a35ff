-- ===== src/Routes/Entries.antt =====
-- The entries of the route tables of manyfaced/handlers/routes/. A handler class is a name here, and
-- the classes are a parameter; so is the entropy test of `HighEntropyPath`, which computes with floats.
use manyfaced_honeypot.Base.{ℕ, Option, none, some, List, [], ◌∷◌, ◌++◌, Text, String, codes}
use manyfaced_honeypot.Router.{Matcher, path_prefix, path_exact, HandlerClass, Route}

pub data HandlerName : Type 0 where
  exploit_cgi php_unit grafana env_disc langflow kubernetes nextjs word_press php_my_admin :
      HandlerName
  jenkins tomcat drupal c_panel bitrix web_dav config_disclosure db_admin docker mcp io_t :
      HandlerName
  nginx_probe atlassian spring aws hnap squid magento redis_admin solr plex jupyter : HandlerName
  rabbit_mq git_lab elastic zabbix laravel think_php nginx joomla cold_fusion fortinet : HandlerName
  citrix share_point splunk not_found generic : HandlerName

-- `Route`, with the name of its handler class
pub record Entry : Type 0 where
  pub matcher : Matcher
  pub handler : HandlerName
  pub detected_id : ℕ
  pub name : Text
  pub ports : Option (List ℕ)

abbrev pub exact : String → HandlerName → ℕ → String → Entry
exact path handler detected_id name = record {
  matcher = path_exact (codes path);
  handler = handler;
  detected_id = detected_id;
  name = codes name;
  ports = none;
}

abbrev pub prefix : String → HandlerName → ℕ → String → Entry
prefix path handler detected_id name = record {
  matcher = path_prefix (codes path);
  handler = handler;
  detected_id = detected_id;
  name = codes name;
  ports = none;
}

-- the routes of Elasticsearch, on its port and that of RabbitMQ's management
abbrev pub scoped : List Entry → List Entry
scoped [] = []
scoped (e ∷ es) = record e { ports = some (9200 ∷ 15672 ∷ []) } ∷ scoped es

-- the tables, one after the other
abbrev pub join : List (List Entry) → List Entry
join [] = []
join (t ∷ ts) = t ++ join ts

abbrev pub route_of : {S : Type 0} → (HandlerName → HandlerClass S) → Entry → Route S
route_of classes e = record {
  matcher = e.matcher;
  handler = classes e.handler;
  detected_id = e.detected_id;
  name = e.name;
  ports = e.ports;
}
