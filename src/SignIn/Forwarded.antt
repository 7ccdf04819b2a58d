-- ===== src/SignIn/Forwarded.antt =====
-- What a client writes into X-Forwarded-For does not choose what its attempts count against.
use mathlib.Core.List
use jacklet.Prelude.{◌≡◌, Bool, false, Option, some, List, ℕ-Eq, Bytes, Bytes-Eq}
use jacklet.SignIn.{is_trusted_proxy, parse_forwarded_addr}

module _ {A P : Type 0} (parse_addr parse_addr_port : Bytes → Option A) (in_proxy : P → A → Bool)
    (proxies : List P) where
  -- The walk from the right ends here: at no address, or at one that is no trusted proxy.
  abbrev pub Stops : Bytes → Type 0
  Stops entry =
      (addr : A)
      → parse_forwarded_addr parse_addr parse_addr_port in_proxy proxies entry ≡ some addr
      → is_trusted_proxy parse_addr parse_addr_port in_proxy proxies addr ≡ false
