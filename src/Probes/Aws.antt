-- ===== src/Probes/Aws.antt =====
-- `_sign_aws_v4` of gateway/verification/_http.py. `hmac key message` is HMAC-SHA256.
use agent_authorization_gate.Base.{
  Option, none, some, List, [], ◌∷◌, ◌++◌, Result, ok, err, ◌>>=◌, Str, Bytes, codes, hex,
}
use agent_authorization_gate.Base.Dict.{Dict}
use agent_authorization_gate.Canonical.{encode_utf8}
use agent_authorization_gate.Verify.{Raised, value_error}
use agent_authorization_gate.Probes.{Url, Moment}

-- `sep.join(texts)`
unfoldable pub join_texts : Str → List Str → Str
join_texts sep [] = []
join_texts sep (s ∷ []) = s
join_texts sep (s ∷ t ∷ rest) = s ++ (sep ++ join_texts sep (t ∷ rest))

-- `headers_to_sign`, in the order of its sorted keys.
unfoldable pub headers_to_sign : Str → Str → Option Str → Dict Str
headers_to_sign host amzdate none = (codes "host", host) ∷ (codes "x-amz-date", amzdate) ∷ []
headers_to_sign host amzdate (some []) = (codes "host", host) ∷ (codes "x-amz-date", amzdate) ∷ []
headers_to_sign host amzdate (some (c ∷ token)) =
    (codes "host", host)
    ∷ (codes "x-amz-date", amzdate)
    ∷ (codes "x-amz-security-token", c ∷ token)
    ∷ []

abbrev names_of : Dict Str → List Str
names_of [] = []
names_of ((k, v) ∷ d) = k ∷ names_of d

-- `"".join(f"{k}:{v}\n" ...)`
unfoldable pub canonical_headers : Dict Str → Str
canonical_headers [] = []
canonical_headers ((k, v) ∷ d) = k ++ (b':' ∷ (v ++ (10 ∷ canonical_headers d)))

-- `f"{host}"` of a host that may be None.
abbrev shown : Option Str → Str
shown none = codes "None"
shown (some s) = s

abbrev path_or_root : Str → Str
path_or_root [] = codes "/"
path_or_root (c ∷ s) = c ∷ s

-- `s.encode()`
abbrev encode : Str → Result Raised Bytes
encode s = elim (encode_utf8 s) [ err _ ↦ err value_error | ok b ↦ ok b ]

abbrev with_token : Option Str → Dict Str → Dict Str
with_token none d = d
with_token (some []) d = d
with_token (some (c ∷ t)) d = d ++ (codes "x-amz-security-token", c ∷ t) ∷ []

module _ (sha256 : Bytes → Bytes) (hmac : Bytes → Bytes → Bytes)
    (urlparse : Str → Result Raised Url) (quote : Str → Str → Str) (upper : Str → Str) where
  unfoldable pub canonical_request : Str → Url → Dict Str → Str
  canonical_request method u d = join_texts (10 ∷ []) (
      upper method
      ∷ quote (codes "/") (path_or_root u.path)
      ∷ u.query
      ∷ canonical_headers d
      ∷ join_texts (codes ";") (names_of d)
      ∷ hex (sha256 [])
      ∷ [])

  -- The chain of four keys.
  unfoldable pub signing_key : Str → Str → Str → Str → Result Raised Bytes
  signing_key secret datestamp region service = do
    k ← encode (codes "AWS4" ++ secret)
    d ← encode datestamp
    r ← encode region
    s ← encode service
    t ← encode (codes "aws4_request")
    ok (hmac (hmac (hmac (hmac k d) r) s) t)

  -- `_sign_aws_v4`
  unfoldable pub sign_aws_v4 :
      Moment → Str → Str → Str → Str → Str → Str → Option Str → Result Raised (Dict Str)
  sign_aws_v4 at method url region service access_key secret_key session_token = do
    u ← urlparse url
    let d = headers_to_sign (shown u.hostname) at.amzdate session_token
    let scope = join_texts (codes "/") (at.datestamp ∷ region ∷ service ∷ codes "aws4_request" ∷ [])
    request ← encode (canonical_request method u d)
    let text =
        join_texts (10 ∷ [])
          (codes "AWS4-HMAC-SHA256" ∷ at.amzdate ∷ scope ∷ hex (sha256 request) ∷ [])
    k ← signing_key secret_key at.datestamp region service
    to_sign ← encode text
    let authorization = join_texts [] (
        codes "AWS4-HMAC-SHA256 Credential="
        ∷ access_key
        ∷ codes "/"
        ∷ scope
        ∷ codes ", SignedHeaders="
        ∷ join_texts (codes ";") (names_of d)
        ∷ codes ", Signature="
        ∷ hex (hmac k to_sign)
        ∷ [])
    ok (
        with_token session_token (
          (codes "Authorization", authorization)
          ∷ (codes "x-amz-date", at.amzdate)
          ∷ (codes "x-amz-content-sha256", hex (sha256 []))
          ∷ []))
