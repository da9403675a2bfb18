-- ===== src/Tests/RequestLine.antt =====
-- Tests and examples of the request-line parser.
use tiny_proxy.Base.{
  ℕ, zero, suc, false, All, length-replicate, ◌≡◌, ◌≢◌, refl, some, [], ◌∷◌, ◌++◌, replicate, arith,
  inr,
}
use tiny_proxy.CString.{Bytes, bytes, isspace, isdigit, isalnum, str_eq}
use tiny_proxy.RequestLine.Step.{
  step_in, store, RequestlineData, is_name, implemented, with_method, with_schema, with_host,
}
use tiny_proxy.RequestLine.Run.{accepted, rejected, overflowed, parse_requestline}
use tiny_proxy.RequestLine.Grammar.{remote, RequestLine, write, IsRequestLine}
use tiny_proxy.RequestLine.Complete.{parse_requestline-write}
use tiny_proxy.RequestLine.Bounds.{parse_requestline-fits, parse_requestline-long_loc}
use tiny_proxy.RequestLine.Reject.{parse_requestline-bare_host}

abbrev blank : RequestlineData
blank = record { method = []; schema = []; host = []; port = []; loc = []; version = [] }

abbrev get_url : RequestLine
get_url = record {
  leading = [];
  method = bytes "GET";
  blanks = [];
  target = remote (some (bytes "http")) (bytes "a.org") (some (bytes "80")) (some (bytes "/x"));
  version = bytes "1.1";
  ending = bytes "\r\n";
}

get_url_written : write get_url ≡ bytes "GET http://a.org:80/x HTTP/1.1\r\n"
get_url_written = refl

get_url-IsRequestLine : IsRequestLine get_url
unfolding isspace isdigit isalnum is_name implemented str_eq
get_url-IsRequestLine = record {
  leading = tt;
  method = refl;
  blanks = tt;
  target = (
    ((refl, refl, (refl, (refl, (refl, tt)))), omega arith),
    ((refl, (refl, (refl, (refl, (refl, tt))))), omega arith),
    ((refl, (refl, tt)), omega arith),
    ((refl, (refl, tt)), omega arith),
    inr (λ e. cc),
  );
  version = (refl, (refl, (refl, tt)));
  version_fits = omega arith;
  ending = refl;
}

abbrev got_url : RequestlineData
got_url = record {
  method = bytes "GET";
  schema = bytes "http";
  host = bytes "a.org";
  port = bytes "80";
  loc = bytes "/x";
  version = bytes "HTTP/1.1";
}

parse_requestline-write_example : parse_requestline blank (write get_url) ≡ accepted got_url
parse_requestline-write_example = parse_requestline-write get_url blank get_url-IsRequestLine

-- Any bytes but 0: here a line that is rejected.
parse_requestline-fits_example : parse_requestline blank (bytes "GET /x HTP/1.1\r\n") ≢ overflowed
parse_requestline-fits_example =
    parse_requestline-fits (bytes "GET /x HTP/1.1\r\n") blank (omega arith)

abbrev long_path : Bytes
long_path = b'/' ∷ replicate 1024 b'a'

letters-All : (n : ℕ) → All (λ c. isspace c ≡ false) (replicate n b'a')
unfolding isspace
letters-All zero = tt
letters-All (suc n) = (refl, letters-All n)

parse_requestline-long_loc_example :
    parse_requestline blank (bytes "GET" ++ (b' ' ∷ (long_path ++ (b' ' ∷ bytes "HTTP/1.1\r\n"))))
    ≡ overflowed
unfolding implemented str_eq
parse_requestline-long_loc_example =
    parse_requestline-long_loc (bytes "GET") long_path (bytes "HTTP/1.1\r\n") blank refl
      (refl, letters-All 1024) (omega (arith, length-replicate {A = ℕ} 1024 b'a'))

parse_requestline-bare_host_example :
    parse_requestline blank (bytes "GET http://a.org HTTP/1.1\r\n")
    ≡ rejected
        (with_host (with_schema (with_method blank (bytes "GET")) (bytes "http")) (bytes "a.org"))
unfolding isspace isdigit isalnum is_name implemented str_eq
parse_requestline-bare_host_example =
    parse_requestline-bare_host (bytes "GET") (bytes "http") (bytes "a.org") (bytes "HTTP/1.1\r\n")
      blank refl ((refl, refl, (refl, (refl, (refl, tt)))), omega arith)
      ((refl, (refl, (refl, (refl, (refl, tt))))), omega arith)

-- Runs of the parser.
connect_line :
    parse_requestline blank (bytes "CONNECT a.org:443 HTTP/1.1")
    ≡ accepted (record blank {
      method = bytes "CONNECT";
      host = bytes "a.org";
      port = bytes "443";
      version = bytes "HTTP/1.1";
    })
unfolding parse_requestline step_in store isspace implemented str_eq is_name isdigit
connect_line = refl

unknown_method :
    parse_requestline blank (bytes "PUT /x HTTP/1.1\r\n")
    ≡ rejected (record blank { method = bytes "PUT" })
unfolding parse_requestline step_in store isspace implemented str_eq
unknown_method = refl
