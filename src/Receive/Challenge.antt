-- ===== src/Receive/Challenge.antt =====
-- The answer of a server that asks for a digest, in `cwmp_session_recv_response` of
-- netcwmp_xo/libcwmp/src/session.c.
use netcwmp_xo.Base.{
  ℕ, ◌≤◌, ◌≡◌, refl, ap, ◌∙◌, ◌⊎◌, inl, inr, Bool, false, some, [], length, take, cwmp_error, codes,
}
use netcwmp_xo.Param.{Name}
use netcwmp_xo.Header.{Headers, get_variable}
use netcwmp_xo.Digest.{sized, realm_field, nonce_field, in_quotes}
use netcwmp_xo.Digest.Parse.{Fits}
use netcwmp_xo.Digest.Check.{challenge, parse_digest_auth-challenge}
use netcwmp_xo.Response.{head}
use netcwmp_xo.Receive.{Auth, stored, with_challenge, result, cookie_of, recv_response}

refused :
    (informed : Bool) (a : Auth) (code size : ℕ) (hs : Headers) (rest : Name)
    → (code ≡ 401) ⊎ (code ≡ 407)
    → recv_response informed a (head code hs size rest)
      ≡ result cwmp_error
          (cookie_of informed hs)
          (with_challenge a (get_variable hs (codes "WWW-Authenticate")))
unfolding recv_response
refused informed a code size hs rest (inl e) = rw e refl
refused informed a code size hs rest (inr e) = rw e refl

-- When the server answers 401 or 407 with a challenge whose realm and nonce have no quotes and fit, the
-- session gets an error, the authentication is no longer active, and the nonce and the first 32
-- characters of the realm are kept.
pub recv_response-challenge :
    (informed : Bool) (a : Auth) (code size : ℕ) (hs : Headers) (rest realm nonce : Name)
    → (code ≡ 401) ⊎ (code ≡ 407)
    → get_variable hs (codes "WWW-Authenticate") ≡ some (challenge realm nonce)
    → Fits in_quotes (sized "realm=" realm_field 128) realm
    → Fits in_quotes (sized "nonce=" nonce_field 33) nonce
    → length (challenge realm nonce) ≤ 511
    → recv_response informed a (head code hs size rest)
      ≡ some (record {
        rc = cwmp_error;
        auth = record {
          active = false;
          digest = some (record {
            realm = take 32 realm;
            nonce = nonce;
            uri = [];
            cnonce = [];
            qop = codes "auth";
            nc = [];
          });
        };
        cookie = cookie_of informed hs;
      })
recv_response-challenge informed a code size hs rest realm nonce c h r n fits =
    refused informed a code size hs rest c
    ∙ ap (λ z. result cwmp_error (cookie_of informed hs) (with_challenge a z)) h
    ∙ ap (λ z. result cwmp_error (cookie_of informed hs) (stored a z))
        (parse_digest_auth-challenge realm nonce r n fits)
