-- ===== src/RequestLine/Reject.antt =====
-- The missing `break` in the case st_host.
use tiny_proxy.Base.{◌≡◌, ◌∙◌, ap, true, [], ◌∷◌, ◌++◌}
use tiny_proxy.CString.{Bytes, isalnum, isdigit}
use tiny_proxy.RequestLine.Step.{
  RequestlineData, st_colon_before_port, st_space_after_method, st_space_before_version, step_in,
  implemented, is_name, with_method, with_schema, with_host,
}
use tiny_proxy.RequestLine.Run.{rejected, run, parse_requestline, and_then}
use tiny_proxy.RequestLine.Grammar.{Fits, IsUri, IsHost}
use tiny_proxy.RequestLine.Spans.{scan, store-append, run-st_uri, run-st_host}
use tiny_proxy.RequestLine.Target.{run_schema}
use tiny_proxy.RequestLine.Complete.{run_method}

-- From the blank before the target to the byte behind the first one of the host.
run_url_host :
    (s h rest a b : Bytes) (d : RequestlineData)
    → IsUri s × Fits s
    → IsHost h × Fits h
    → run (scan st_space_after_method a b d) (s ++ (b':' ∷ b'/' ∷ b'/' ∷ (h ++ (b' ' ∷ rest))))
      ≡ rejected (with_host (with_schema d s) h)
unfolding run step_in is_name isalnum isdigit
run_url_host [] h rest a b d k f = absurd k.0
run_url_host (c ∷ w) [] rest a b d k f = absurd f.0
run_url_host (c ∷ w) (x ∷ y) rest a b d k f =
    let behind : Bytes = b' ' ∷ rest in
    let url : Bytes = b':' ∷ b'/' ∷ b'/' ∷ x ∷ (y ++ behind) in
    rw (k.0.0, k.0.1)
      (run-st_uri (c ∷ (w ++ url)) b d w url k.0.2
        ∙ run_schema (c ∷ w) (x ∷ (y ++ behind)) b d k.1
        ∙ rw f.0.0 (
            run-st_host (x ∷ (y ++ behind)) url (with_schema d (c ∷ w)) y behind f.0.1
            ∙ ap (and_then (λ q. run q rest)) (
                store-append with_host (λ q. step_in st_colon_before_port q b' ' rest)
                  st_space_before_version (with_schema d (c ∷ w)) (x ∷ y) behind f.1)))

-- A request whose target is a schema and a host with neither port nor path, such as
-- "GET http://host HTTP/1.1", is rejected, whatever stands behind the blank that ends the host.
pub parse_requestline-bare_host :
    (m s h rest : Bytes) (d : RequestlineData)
    → implemented m ≡ true
    → IsUri s × Fits s
    → IsHost h × Fits h
    → parse_requestline d (m ++ (b' ' ∷ (s ++ (b':' ∷ b'/' ∷ b'/' ∷ (h ++ (b' ' ∷ rest))))))
      ≡ rejected (with_host (with_schema (with_method d m) s) h)
unfolding parse_requestline
parse_requestline-bare_host m s h rest d known k f =
    run_method m (s ++ (b':' ∷ b'/' ∷ b'/' ∷ (h ++ (b' ' ∷ rest)))) [] [] d known
    ∙ run_url_host s h rest _ _ (with_method d m) k f
