-- ===== src/Pgcluster/Detect/Url.antt =====
-- The address that `extractIPFromURL` of pgcluster/writer_detection.go finds.
use svckit.Base.{◌≡◌, refl, ap, ◌∙◌, ℕ, [], ◌∷◌, ◌++◌}
use svckit.Base.Text.{Text, codes, before}
use svckit.Base.Text.Laws.{Without, cut-append, Clear-byte}
use svckit.Pgcluster.Detect.{extract_ip_from_url, host_port}

before-append :
    (c : ℕ) (x rest : Text) → Without c x → before (c ∷ []) (x ++ ((c ∷ []) ++ rest)) ≡ x
unfolding before
before-append c x rest h = rw (cut-append c [] x rest (Clear-byte c [] x _ h), before) refl

-- From `postgres://`, credentials without `@`, `@`, a host without `:`, `:`, a port, `/` and a
-- database, where no `/` stands before the one after the port, the host is found.
pub extract_ip_from_url-host :
    (credentials host port database : Text)
    → Without 64 credentials
    → Without 58 host
    → Without 47 (host ++ (codes ":" ++ port))
    → extract_ip_from_url (
        codes "postgres://"
        ++ (credentials
            ++ (codes "@" ++ ((host ++ (codes ":" ++ port)) ++ (codes "/" ++ database)))))
      ≡ host
unfolding extract_ip_from_url host_port
extract_ip_from_url-host credentials host port database c h a =
    let rest = (host ++ (codes ":" ++ port)) ++ (codes "/" ++ database) in
    rw (cut-append 64 [] credentials rest (Clear-byte 64 [] credentials _ c)) (
      ap (before (codes ":")) (before-append 47 (host ++ (codes ":" ++ port)) database a)
      ∙ before-append 58 host port h)
