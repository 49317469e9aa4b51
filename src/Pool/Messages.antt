-- ===== src/Pool/Messages.antt =====
-- Which handlers a message reaches in relay-pool.ts.
use synchrono_city.Prelude.{
  ℕ, ◌≡◌, refl, Bool, true, false, List, [], ◌∷◌, ◌++◌, arith, if◌then◌else◌, All,
}
use synchrono_city.Pool.Events.{Payload, parsed, raw, call_all, with_payload, deliver}

call_all_quiet :
    (throws : ℕ → Bool) (hs : List ℕ)
    → All (λ h. throws h ≡ false) hs
    → call_all throws hs ≡ (hs, false)
unfolding call_all
call_all_quiet throws [] q = refl
call_all_quiet throws (h ∷ hs) (e, q) = ground (arith, call_all_quiet throws hs q)

-- If no handler throws, every handler is called once, in the order of registration: with the
-- parsed message if it is JSON, and with its text otherwise.
pub deliver_quiet :
    (parses : Bool) (throws : ℕ → Payload → Bool) (hs : List ℕ)
    → All (λ h. throws h parsed ≡ false) hs
    → All (λ h. throws h raw ≡ false) hs
    → deliver parses throws hs ≡ with_payload (if parses then parsed else raw) hs
unfolding deliver
deliver_quiet true throws hs p r = rw (call_all_quiet (λ h. throws h parsed) hs p, if◌then◌else◌)
deliver_quiet false throws hs p r = rw (call_all_quiet (λ h. throws h raw) hs r, if◌then◌else◌)

call_all-first :
    (throws : ℕ → Bool) (h : ℕ) (hs : List ℕ)
    → (more : List ℕ) × ((call_all throws (h ∷ hs)).0 ≡ h ∷ more)
unfolding call_all
call_all-first throws h hs = (if throws h then [] else (call_all throws hs).0, ground arith)

-- If a handler throws at the parsed message, the first handler is called twice for the one message:
-- with the parsed message, and again with its text.
pub deliver_twice :
    (throws : ℕ → Payload → Bool) (first : ℕ) (hs : List ℕ)
    → (call_all (λ h. throws h parsed) (first ∷ hs)).1 ≡ true
    → (more more' : List (ℕ × Payload)) × (deliver true throws (first ∷ hs)
        ≡ (first, parsed) ∷ more ++ (first, raw) ∷ more')
unfolding deliver
deliver_twice throws first hs threw =
    let (more, e) = call_all-first (λ h. throws h parsed) first hs in
    let (more', e') = call_all-first (λ h. throws h raw) first hs in
    (with_payload parsed more, with_payload raw more', rw (threw, e, e', if◌then◌else◌) refl)
