-- ===== src/Proxy/Sample.antt =====
-- Toy services for src/internal/proxy: the state of each is its list of routes or records.
use unet.Base.{
  ℕ, ◌≡◌, refl, sym, ap, Bool, true, false, inl, inr, List, [], ◌∷◌, ◌++◌, Option, none, some,
  if◌then◌else◌, Text, codes, text_eq, text_eq_refl, Bool-cases, keep,
}
use unet.Base.Map.{Map, lookup}
use unet.Proxy.Caddy.{CaddyRouteJson, CaddyApi, routes_of, remove_at}
use unet.Proxy.Dns.{DnsRecord, CloudflareApi, handle_cf_response, replace_id, without_id, has_id}

abbrev pub answer : Map (List CaddyRouteJson) → Option (ℕ × Option (Map (List CaddyRouteJson)))
answer m = some (200, some m)

abbrev pub srv0_of : List CaddyRouteJson → Map (List CaddyRouteJson)
srv0_of s = (codes "srv0", s) ∷ []

pub srv0_routes :
    (s : List CaddyRouteJson) {code : ℕ} {servers : Map (List CaddyRouteJson)}
    → answer (srv0_of s) ≡ some (code, some servers)
    → routes_of (lookup (codes "srv0") servers) ≡ s
unfolding lookup text_eq
srv0_routes s {servers = servers} h =
    let p : srv0_of s ≡ servers = cc h in ap (λ x. routes_of (lookup (codes "srv0") x)) (sym p)

abbrev pub caddy_api : CaddyApi
caddy_api = record {
  State = List CaddyRouteJson;
  routes = λ base s. s;
  get_config = λ base s. answer (srv0_of s);
  post_route = λ base r s. (s ++ r ∷ [], some 200);
  delete_route = λ base i s. (remove_at i s, some 200);
  join_host_port = λ h p. h ++ codes ":" ++ p;
  equal_fold = text_eq;
  listed = λ base s h low. srv0_routes s h;
  posted = λ base r s s' h low. sym (ap (λ x. x.0) h);
  deleted = λ base i s s' h low. sym (ap (λ x. x.0) h);
  equal_fold_refl = text_eq_refl;
}

-- A record is posted under the id `n` if no record has it.
abbrev pub post_n : DnsRecord → List DnsRecord → List DnsRecord × Option (ℕ × Option Bool)
post_n r s =
    if has_id (codes "n") s
    then (s, none)
    else (s ++ record r { id = codes "n" } ∷ [], some (200, some true))

pub post_n-posted :
    (r : DnsRecord) (s : List DnsRecord)
    → handle_cf_response (post_n r s).1 ≡ none
    → (id : Text) × (has_id id s ≡ false) × ((post_n r s).0 ≡ s ++ record r { id = id } ∷ [])
unfolding handle_cf_response
post_n-posted r s h = elim (Bool-cases (has_id (codes "n") s)) [
  | inl e ↦ (let x = rw e at h in cc x)
  | inr e ↦ (codes "n", e, rw e refl)
]

abbrev pub found_all : List DnsRecord → Option (ℕ × Option (Bool × List DnsRecord))
found_all rs = some (200, some (true, rs))

pub got_all :
    (rs : List DnsRecord) {code : ℕ} {success : Bool} {found : List DnsRecord}
    → found_all rs ≡ some (code, some (success, found))
    → (success ≡ true) × (found ≡ rs)
got_all rs h = (cc h, cc h)

abbrev pub cloudflare_api : CloudflareApi
cloudflare_api = record {
  State = List DnsRecord;
  records = λ zone s. s;
  get = λ token zone name s. found_all (keep (λ r. text_eq r.name name) s);
  post = λ token zone r s. post_n r s;
  put = λ token zone id r s. (replace_id id r s, some (200, some true));
  delete = λ token zone id s. (without_id id s, some (200, some true));
  to_lower = λ t. t;
  got = λ token zone name s h low. got_all (keep (λ r. text_eq r.name name) s) h;
  posted = λ token zone r s h. post_n-posted r s h;
  changed = λ token zone id r s h. refl;
  deleted = λ token zone id s h. refl;
}
