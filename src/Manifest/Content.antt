-- ===== src/Manifest/Content.antt =====
-- manifest/schema.go: what a content template is executed on.
use netbootd.Prelude.{Bytes}
use netbootd.GoStd.Ip.{Ip}
use netbootd.Manifest.Defs.{Manifest}

-- A url.URL of which only the scheme and the host are set.
pub record BaseUrl : Type 0 where
  pub scheme : Bytes
  pub host : Bytes

pub record ContentContext : Type 0 where
  pub local_ip : Ip
  pub remote_ip : Ip
  pub http_base_url : BaseUrl
  pub api_base_url : BaseUrl
  pub syslog_host : Bytes
  pub manifest : Manifest
