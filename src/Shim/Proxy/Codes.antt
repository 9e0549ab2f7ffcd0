-- ===== src/Shim/Proxy/Codes.antt =====
-- The error code of a connection tells how its last request went.
use sqlite_broker.Prelude.{
  ℤ, pos, int_eq, ◌≡◌, refl, sym, Bool, true, false, if◌then◌else◌, is_empty, if-both,
}
use sqlite_broker.Prelude.Result.{Result, ok, err}
use sqlite_broker.Text.{Bytes, codes}
use sqlite_broker.Protocol.Message.{Request, Response}
use sqlite_broker.Shim.State.{Net, ProxyDb}
use sqlite_broker.Shim.Proxy.{or_error, apply, fail, exchange, digest, rpc}

abbrev pub is_ok {ℓ} : {A : Type ℓ} → Result Bytes A → Bool
is_ok (ok a) = true
is_ok (err e) = false

or_error-nonzero : (code : ℤ) → int_eq (or_error code) (pos 0) ≡ false
or_error-nonzero code =
    if-both (λ (c : ℤ). int_eq c (pos 0) ≡ false) (int_eq code (pos 0)) (λ zero_. refl)
      (λ other. other)

module _ {net : Net} where
  abbrev Tells : Result Bytes Response × ProxyDb net × net.World → Type 0
  Tells r = is_ok r.0 ≡ int_eq r.1.errcode (pos 0)

  digest-Tells :
      (p : ProxyDb net) (r : Result Bytes Response) (w : net.World) → Tells (digest p (r, w))
  unfolding digest apply fail
  digest-Tells p (err e) w = refl
  digest-Tells p (ok resp) w = answer resp.ok
    where
      answer :
          (b : Bool)
          → is_ok (
              if b
              then ok resp
              else err (if is_empty resp.message then codes "sql error" else resp.message))
            ≡ int_eq (if b then pos 0 else or_error resp.code) (pos 0)
      answer true = refl
      answer false = sym (or_error-nonzero resp.code)

  -- After a request of any kind, on a connection that is open or closed, the connection's error code is
  -- 0 if and only if the request succeeded.
  pub rpc_errcode :
      (req : Request) (p : ProxyDb net) (w : net.World)
      → is_ok (rpc req p w).0 ≡ int_eq (rpc req p w).1.errcode (pos 0)
  unfolding rpc fail
  rpc_errcode req p w =
      if-both Tells p.closed (λ shut. refl)
        (λ still. digest-Tells p (exchange p req w).0 (exchange p req w).1)
