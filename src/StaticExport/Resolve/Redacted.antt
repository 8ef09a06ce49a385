-- ===== src/StaticExport/Resolve/Redacted.antt =====
-- apps/local-server/src/static_export.rs: what the receipt shows of an external URL.
use synapsegit_lp_studio.StaticExport.Resolve.{is_nonempty, is_web}
use synapsegit_lp_studio.ChangeSet.Types.{Crates, Url}
use synapsegit_lp_studio.Prelude.{
  Bool, [], if◌then◌else◌, is_some, none, some, true, ◌++◌, ◌||◌, ◌≡◌,
}
use synapsegit_lp_studio.Prelude.Text.{Text, codes}

-- The URLs agree in the scheme, the host, the port and the path, and in whether there is user
-- information, a query or a fragment. What these are is left open.
pub record SamePublic (a b : Url) : Type 0 where
  pub same_scheme : a.scheme ≡ b.scheme
  pub same_host : a.host_str ≡ b.host_str
  pub same_port : a.port ≡ b.port
  pub same_path : a.path ≡ b.path
  pub same_userinfo :
      (is_nonempty a.username || is_some a.password)
      ≡ (is_nonempty b.username || is_some b.password)
  pub same_query : is_some a.query ≡ is_some b.query
  pub same_fragment : is_some a.fragment ≡ is_some b.fragment

-- What the crate `url` documents: each call changes the one part that it names, where a URL with a
-- host, of the web's schemes, has the part; and the origin is that of the scheme, the host and the
-- port.
pub record UrlsWork (crates : Crates) : Type 0 where
  pub sets_username :
      (url : Url)
      → is_web url.scheme ≡ true
      → is_some url.host_str ≡ true
      → crates.set_username [] url ≡ some (record url { username = [] })
  pub sets_password :
      (url : Url)
      → is_web url.scheme ≡ true
      → is_some url.host_str ≡ true
      → crates.set_password none url ≡ some (record url { password = none })
  pub sets_query : (url : Url) → crates.set_query none url ≡ record url { query = none }
  pub sets_fragment : (url : Url) → crates.set_fragment none url ≡ record url { fragment = none }
  pub origin_of_parts :
      (t u : Text) (a b : Url)
      → crates.parse_url t ≡ some a
      → crates.parse_url u ≡ some b
      → a.scheme ≡ b.scheme
      → a.host_str ≡ b.host_str
      → a.port ≡ b.port
      → a.origin ≡ b.origin

-- The URL without what is redacted.
abbrev pub bare_url : Url → Url
bare_url url = record url { username = []; password = none; query = none; fragment = none }

-- What the reference is parsed as.
abbrev pub IsParsedAs : Crates → Text → Bool → Url → Type 0
IsParsedAs crates reference protocol_relative url =
    crates.parse_url (if protocol_relative then codes "https:" ++ reference else reference)
    ≡ some url
