-- ===== src/Backend/Center/Files/Address.antt =====
-- src/backend/center.cc: the address of ETCD is made of the host of the API server.
use mathlib.Core.List.{append-ne-nil_of_right_ne-nil}
use ohno.Common.{ℕ, ◌≡◌, ◌≢◌, refl, ap, ◌∙◌, [], ◌∷◌, ◌++◌, some}
use ohno.Common.Bytes.{Bytes, codes}
use ohno.Common.Exec.{Outcome, ok, fault, assertion, exception, undefined, cni_error, and_then}
use ohno.Helper.Split.{Lacks, until-append}
use ohno.Net.Nic.{starts_with, drop, starts_with-append, starts_with-head}
use ohno.Backend.Center.Files.{
  Files, on_host, find_from, etcd_of, host_of, etcd_body, or_empty, get_server_url,
  get_etcd_clusters, get_api_server, api_body, host_file,
}

-- A text is found where its first character is for the first time.
found :
    (c : ℕ) (p before after : Bytes)
    → Lacks c before
    → find_from (c ∷ p) (before ++ (c ∷ p) ++ after) ≡ some ((c ∷ p) ++ after)
unfolding find_from
found c p [] after h = rw (starts_with-append (c ∷ p) after) refl
found c p (d ∷ before) after h =
    rw (starts_with-head c d p (before ++ (c ∷ p) ++ after) h.0) (found c p before after h.1)

etcd_of-uri :
    (scheme name rest : Bytes)
    → Lacks b':' scheme
    → Lacks b':' name
    → etcd_of (scheme ++ codes "://" ++ (name ++ b':' ∷ rest))
      ≡ ok (codes "https://" ++ name ++ codes ":2379")
unfolding etcd_of host_of drop
etcd_of-uri scheme name rest hs hn =
    ap (λ o. and_then (host_of o) (λ n. ok (codes "https://" ++ n ++ codes ":2379")))
      (found b':' (codes "//") scheme (name ++ b':' ∷ rest) hs)
    ∙ ap (λ r. ok (codes "https://" ++ r.0 ++ codes ":2379")) (until-append b':' name rest hn)

ends_full : (s t : Bytes) (c : ℕ) → s ++ c ∷ t ≢ []
ends_full [] t c e = cc
ends_full (d ∷ s) t c e = cc

-- A result that is not empty is the one that was caught.
or_empty_ok : (o : Outcome Bytes) (s : Bytes) → s ≢ [] → or_empty o ≡ ok s → o ≡ ok s
unfolding or_empty
or_empty_ok (ok x) s h e = e
or_empty_ok (fault exception) s h e = absurd (h cc)
or_empty_ok (fault assertion) s h e = cc
or_empty_ok (fault undefined) s h e = cc
or_empty_ok (fault (cni_error n)) s h e = cc

module _ {K : Type 0} (files : Files K) where
  -- On a host, where `getApiServer` gives an address of a scheme, a host and a port, without a colon in
  -- the scheme or in the host: `getEtcdClusters` gives, in the same state, the address of the same
  -- host with `https` and port 2379.
  pub get_etcd_clusters-get_api_server :
      (scheme name port : Bytes) (k : K)
      → Lacks b':' scheme
      → Lacks b':' name
      → (get_api_server files on_host k).0 ≡ ok (scheme ++ codes "://" ++ (name ++ b':' ∷ port))
      → (get_etcd_clusters files k).0 ≡ ok (codes "https://" ++ name ++ codes ":2379")
  unfolding get_api_server api_body get_etcd_clusters etcd_body or_empty
  get_etcd_clusters-get_api_server scheme name port k hs hn said =
      rw
        (
          or_empty_ok (get_server_url files host_file k).0
              (scheme ++ codes "://" ++ (name ++ b':' ∷ port))
              (append-ne-nil_of_right_ne-nil (scheme ++ codes "://") (ends_full name port b':'))
              said,
          etcd_of-uri scheme name port hs hn,
        )
        refl

  -- Where the text of the file can be read and holds no address of a server, `getEtcdClusters` ends by
  -- a failed assertion.
  pub get_etcd_clusters-missing :
      (k : K)
      → (get_server_url files host_file k).0 ≡ ok []
      → (get_etcd_clusters files k).0 ≡ fault assertion
  unfolding get_etcd_clusters etcd_body or_empty etcd_of host_of find_from starts_with
  get_etcd_clusters-missing k nothing = rw nothing refl
