-- ===== src/SignIn.antt =====
-- pkg/admin/login.go: who an attempt to sign in is counted against, and how attempts are spaced.
--
-- Addresses are those of net/netip: their type, reading and writing them and an operator's list of
-- proxies are arguments.
mod Spacing
mod Forwarded
mod Tests
use mathlib.Core.List
use jacklet.Prelude.{
  ℕ, zero, suc, ◌+◌, ◌-◌, ◌*◌, ◌/◌, ◌%◌, ◌^◌, ◌≤◌, ◌<◌, min, max, ◌≡◌, refl, sym, ap, ap₂, ◌∙◌,
  subst, fun_ext, ◌≡⟨◌⟩◌, ◌∎, ◌≢◌, ◌↔◌, ◌⊎◌, inl, inr, Bool, true, false, not, ◌&&◌, ◌||◌, Option,
  none, some, List, [], ◌∷◌, ◌++◌, map, append_assoc, append-nil, arith, ltb, leb, nat_eq,
  if◌then◌else◌, ltb→lt, lt→ltb, leb→le, le→leb, nat_eq_iff, tests, Bool-cases, Option-cases, Eq,
  ◌==◌, ℕ-Eq, beq_refl, beq_eq, beq_ne, ne_beq, length, get_elem?, take, drop, All, Any, select,
  length-append, take_append, drop_append, take-append-drop, length-take, length-drop, All-append,
  All-map, contains, Bytes, codes, bytes_eq, bytes_eq_iff, Bytes-Eq,
}
use jacklet.Prelude.Map.{
  Map, empty, insert, delete, insert_self, insert_ne, delete_self, delete_ne, delete_if,
}
use jacklet.Prelude.Ascii.{
  is_space, trim_left, before, trim_right, trim_space, lower, to_lower, equal_fold, has_prefix, cut,
  trim_left-space,
}
use jacklet.Prelude.Split.{
  extend, split, join, split-nonempty, split-append, split-single, split-join,
}

abbrev pub login_delay : ℕ
login_delay = 500_000_000

pub record LoginLimiter : Type 0 where
  pub next_prune : ℕ
  pub not_before : Map Bytes ℕ

abbrev pub new_limiter : LoginLimiter
new_limiter = record { next_prune = 0; not_before = empty }

abbrev pub is_waiting : Option ℕ → ℕ → Bool
is_waiting none now = false
is_waiting (some until) now = ltb now until

-- `!now.Before(until)`
abbrev pub has_ended : ℕ → ℕ → Bool
has_ended now until = not (ltb now until)

-- The sweep, at most once per delay.
unfoldable pub sweep : LoginLimiter → ℕ → LoginLimiter
sweep l now =
    if not (ltb now l.next_prune)
    then record {
      next_prune = now + login_delay;
      not_before = delete_if (has_ended now) l.not_before;
    }
    else l

unfoldable pub reserve : LoginLimiter → Bytes → ℕ → LoginLimiter × Bool
unfolding sweep
reserve l key now =
    if is_waiting (l.not_before key) now
    then (l, false)
    else let swept = sweep l now in
      (record swept { not_before = insert key (now + login_delay) swept.not_before }, true)

unfoldable pub release : LoginLimiter → Bytes → LoginLimiter
release l key = record l { not_before = delete key l.not_before }

-- What the server does with the limiter, at the time it does it.
pub data Event : Type 0 where
  attempted signed_in : Bytes → Event

unfoldable pub apply : LoginLimiter → ℕ → Event → LoginLimiter
unfolding reserve release
apply l now (attempted key) = (reserve l key now).0
apply l now (signed_in key) = release l key

unfoldable pub run : LoginLimiter → List (ℕ × Event) → LoginLimiter
unfolding apply
run l [] = l
run l ((now, e) ∷ es) = run (apply l now e) es

unfoldable pub any_contains : {A P : Type 0} → (P → A → Bool) → List P → A → Bool
any_contains in_proxy [] addr = false
any_contains in_proxy (p ∷ ps) addr = in_proxy p addr || any_contains in_proxy ps addr

module _ {A P : Type 0} (parse_addr parse_addr_port : Bytes → Option A) (in_proxy : P → A → Bool)
    (proxies : List P) where
  unfoldable pub is_trusted_proxy : A → Bool
  unfolding any_contains
  is_trusted_proxy addr = any_contains in_proxy proxies addr

  -- An address alone, or with the port that some proxies write.
  unfoldable pub parse_forwarded_addr : Bytes → Option A
  unfolding trim_space
  parse_forwarded_addr entry = elim (parse_addr (trim_space entry)) [
    | some addr ↦ some addr
    | none ↦ parse_addr_port (trim_space entry)
  ]

  -- The loop over the entries, the last one first.
  unfoldable pub walk : A → A → List Bytes → A
  unfolding parse_forwarded_addr is_trusted_proxy
  walk peer client [] = client
  walk peer client (entry ∷ entries) = elim (parse_forwarded_addr entry) [
    | none ↦ peer
    | some addr ↦ elim (is_trusted_proxy addr) [ true ↦ walk peer addr entries | false ↦ addr ]
  ]

  unfoldable pub forwarded_client : List Bytes → A → A
  unfolding walk split join
  forwarded_client headers peer = walk peer peer (List.reverse (split b',' (join b',' headers)))

  module _ (is_6 : A → Bool) (prefix_48 : A → Option Bytes) (show : A → Bytes) where
    -- A site's /48 for an IPv6 address, else the address.
    abbrev pub slot_name : A → Bytes
    slot_name addr =
        if is_6 addr
        then elim (prefix_48 addr) [ some prefix ↦ prefix | none ↦ show addr ]
        else show addr

    unfoldable pub client_address : Bytes → List Bytes → Bytes
    unfolding is_trusted_proxy forwarded_client
    client_address remote headers = elim (parse_addr_port remote) [
      | none ↦ remote
      | some addr ↦
          slot_name (if is_trusted_proxy addr then forwarded_client headers addr else addr)
    ]
