-- ===== src/Manifest/Proxy.antt =====
-- manifest/schema.go: Mount.ProxyDirector. url.Parse is a parameter.
use netbootd.Prelude.{Option, none, some, [], ◌++◌, Bytes, if◌then◌else◌, Result, ok, err}
use netbootd.GoStd.Strings.{trim_prefix}
use netbootd.Manifest.Defs.{Mount}

-- The parts of a url.URL that a director reads or sets.
pub record Url : Type 0 where
  pub scheme : Bytes
  pub host : Bytes
  pub path : Bytes
  pub raw_path : Bytes

-- What a director changes of a request; `user_agent` is none if the header is missing.
pub record Proxied : Type 0 where
  pub url : Url
  pub host : Bytes
  pub user_agent : Option Bytes

abbrev or_empty : Option Bytes → Option Bytes
or_empty none = some []
or_empty (some b) = some b

-- The function that ProxyDirector returns
unfoldable pub direct : Mount → Url → Proxied → Proxied
direct m target req = record {
  url = record {
    scheme = target.scheme;
    host = target.host;
    path = if m.append_suffix then target.path ++ trim_prefix req.url.path m.path else target.path;
    raw_path =
        if m.append_suffix
        then target.raw_path ++ trim_prefix req.url.raw_path m.path
        else target.raw_path;
  };
  host = target.host;
  user_agent = or_empty req.user_agent;
}

abbrev directed : Mount → Result Url → Result (Proxied → Proxied)
directed m (err e) = err e
directed m (ok target) = ok (direct m target)

-- Mount.ProxyDirector
unfoldable pub proxy_director : (Bytes → Result Url) → Mount → Result (Proxied → Proxied)
proxy_director parse m = directed m (parse m.proxy)
