-- ===== src/Server/Listen.antt =====
-- The functions that make a server listen on an address.
use sancus_core.Base.{
  ℕ, zero, suc, ◌||◌, Bool, Option, none, some, List, ◌≡◌, refl, sym, ap, ◌∙◌, ◌⊎◌, inl, inr, [],
  arith, ltb, length, Bool-cases, ltb-false→le,
}
use sancus_core.Base.Int.{ℤ, pos, negsuc, eqb_ℤ}
use sancus_core.Base.Memory.{Bytes}
use sancus_core.Sys.{Kernel, Address, unlink, Entry, syscall}
use sancus_core.Sys.Rules.{Ensures, Ensures-map, >>=-Ensures, syscall-Ensures}
use sancus_core.Sys.Ledger.{is_open, Same}
use sancus_core.Ev.{Ev, Keeping}
use sancus_core.Socket.{af_inet, af_inet6}
use sancus_core.Socket.Path.{path_fits}
use sancus_core.Server.{
  Server, Settings, any_ipv4, any_ipv6, text_of, init_ipv4, init_ipv6, init_local, copy_path,
  init_tcp, listen_on, ipv4_listen, ipv6_listen, listen_at, local_listen,
}
use sancus_core.Server.Leaks.{Listens, Hook, init_tcp-Listens}

-- What `inet_pton` answers for the families that it is asked about.
abbrev pub Resolver : (ℕ → Bytes → ℤ × Bytes) → Type 0
Resolver inet_pton =
    (family : ℕ) (addr : Bytes)
    → ((inet_pton family addr).0 ≡ pos 0) ⊎ ((inet_pton family addr).0 ≡ pos 1)

module _ {W : Type 0} (ev : Ev W) (backlog : ℕ) where
  -- A call in front that opens and closes nothing.
  Listens-Same :
      (s : Server W) (before log : List Entry) (r : ℤ × Server W) (k : Kernel)
      → Same before log
      → Listens ev backlog s log r k
      → Listens ev backlog s before r k
  Listens-Same s before log (pos zero, s') k same h = (h.0, λ x. (h.1) x ∙ same x)
  Listens-Same s before log (pos (suc n), s') k same (e, (fd, own, opened, listening)) =
      (e, (fd, own, (λ x. opened x ∙ ap (λ f. eqb_ℤ x (pos fd) || f) (same x)), listening))
  Listens-Same s before log (negsuc n, s') k same h = ((λ x g. sym (same x) ∙ (h.0) x g), h.1)

module _ {W : Type 0} (ev : Ev W) (keeping : Keeping ev) (backlog : ℕ) {A : Type 0}
    (settings : Settings W A) (hook : Hook ev keeping backlog settings.pre_bind) where
  listen_on-Listens :
      (rc : ℤ) (sa : Address) (cloexec : Bool) (s : Server W) (k : Kernel)
      → (rc ≡ pos 0) ⊎ (rc ≡ pos 1)
      → Ensures (Listens ev backlog s k.log) (listen_on ev settings (rc, sa) cloexec backlog s k)
  listen_on-Listens rc sa cloexec s k (inl h) = rw h (refl, λ x. refl)
  listen_on-Listens rc sa cloexec s k (inr h) =
      rw h (init_tcp-Listens ev keeping backlog settings.pre_bind sa cloexec s k hook)

  listen_at-Listens :
      (path : Option Bytes) (sa : Address) (cloexec : Bool) (s : Server W) (k : Kernel)
      → Ensures
          (Listens ev backlog s k.log)
          (listen_at ev settings path (pos 1, sa) cloexec backlog s k)
  unfolding listen_at
  listen_at-Listens path sa cloexec s k =
      >>=-Ensures _ _ (syscall (unlink path) k) _ (syscall-Ensures (unlink path) k) (λ a k' called.
        Ensures-map _ _ (init_tcp ev settings.pre_bind sa cloexec backlog s k')
          (init_tcp-Listens ev keeping backlog settings.pre_bind sa cloexec s k' hook)
          (λ r k'' listens.
            Listens-Same ev backlog s k.log k'.log r k'' (λ x. ap (is_open x) (called.0)) listens))

  local_listen-Listens :
      (path : Option Bytes) (cloexec : Bool) (s : Server W) (k : Kernel)
      → Ensures (Listens ev backlog s k.log) (local_listen ev settings path cloexec backlog s k)
  unfolding local_listen init_local
  local_listen-Listens none cloexec s k =
      rw (copy_path, path_fits [] (omega arith)) (listen_at-Listens none _ cloexec s k)
  local_listen-Listens (some path) cloexec s k = elim (Bool-cases (ltb 107 (length path))) [
    | inl h ↦ rw h (refl, λ x. refl)
    | inr h ↦
        rw (h, copy_path, path_fits path (ltb-false→le _ _ h))
          (listen_at-Listens (some path) _ cloexec s k)
  ]

  -- An address that means any is not looked up.
  init_ipv4-cases :
      (inet_pton : ℕ → Bytes → ℤ × Bytes) (addr : Option Bytes) (port : ℕ)
      → Resolver inet_pton
      → ((init_ipv4 inet_pton addr port).0 ≡ pos 0) ⊎ ((init_ipv4 inet_pton addr port).0 ≡ pos 1)
  unfolding init_ipv4
  init_ipv4-cases inet_pton addr port resolver = elim (Bool-cases (any_ipv4 addr)) [
    | inl h ↦ rw h (inr refl)
    | inr h ↦ rw h (resolver af_inet (text_of addr))
  ]

  init_ipv6-cases :
      (inet_pton : ℕ → Bytes → ℤ × Bytes) (addr : Option Bytes) (port : ℕ)
      → Resolver inet_pton
      → ((init_ipv6 inet_pton addr port).0 ≡ pos 0) ⊎ ((init_ipv6 inet_pton addr port).0 ≡ pos 1)
  unfolding init_ipv6
  init_ipv6-cases inet_pton addr port resolver = elim (Bool-cases (any_ipv6 addr)) [
    | inl h ↦ rw h (inr refl)
    | inr h ↦ rw h (resolver af_inet6 (text_of addr))
  ]

  -- `sancus_tcp_ipv4_listen`, `sancus_tcp_ipv6_listen` and `sancus_tcp_local_listen`, with any
  -- answers of the kernel, on an event library that keeps the descriptors of its watchers, an
  -- `inet_pton` that answers 0 or 1, and a `pre_bind` that fails no assertion, opens and closes
  -- nothing and keeps the watcher's descriptor, fail no assertion, leave no object, and do as
  -- `Listens` says: with 1 the server has an open descriptor that is bound and listens; no
  -- descriptor is left open where the result is not 1, and `errno` is that of the `bind` or the
  -- `listen` that failed.
  pub listens_lem :
      (inet_pton : ℕ → Bytes → ℤ × Bytes) (addr path : Option Bytes) (port : ℕ) (cloexec : Bool)
      (s : Server W) (k : Kernel)
      → Resolver inet_pton
      → Ensures
          (Listens ev backlog s k.log)
          (ipv4_listen ev settings inet_pton addr port cloexec backlog s k)
        × Ensures
            (Listens ev backlog s k.log)
            (ipv6_listen ev settings inet_pton addr port cloexec backlog s k)
        × Ensures (Listens ev backlog s k.log) (local_listen ev settings path cloexec backlog s k)
  unfolding ipv4_listen ipv6_listen
  listens_lem inet_pton addr path port cloexec s k resolver = (
    listen_on-Listens _ _ cloexec s k (init_ipv4-cases inet_pton addr port resolver),
    listen_on-Listens _ _ cloexec s k (init_ipv6-cases inet_pton addr port resolver),
    local_listen-Listens path cloexec s k,
  )
