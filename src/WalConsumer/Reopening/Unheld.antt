-- ===== src/WalConsumer/Reopening/Unheld.antt =====
-- A pause without an upgrade, and the set of held segments.
use quorin.Base.{
  ◌<◌, ◌≡◌, refl, ◌∙◌, ap, arith, Bool, true, false, not, some, List, [], ◌∷◌, ◌==◌, contains,
  ==_self, if_yes, if_no,
}
use quorin.Registry.{Name, Redis, srem, open_transaction, release, close_script}
use quorin.WalConsumer.Reopening.{Attached, swap_segment, reopen_found, reopen}

srem_removes : (n : Name) (q : List Name) → contains n (srem n q) ≡ false
unfolding srem
srem_removes n [] = refl
srem_removes n (m ∷ q) = ground (arith, srem_removes n q)

-- A segment that is opened and closed again by a process that has it open
opened_counter :
    (r : Redis) (pid n : Name)
    → 0 < r.refcount n
    → (close_script (open_transaction r pid n) pid n).refcount n ≡ r.refcount n
unfolding close_script release open_transaction
opened_counter r pid n used = ground arith

closed_unheld :
    (r : Redis) (pid n : Name) → contains n ((close_script r pid n).pid_segments pid) ≡ false
unfolding close_script
closed_unheld r pid n = rw (==_self pid) (srem_removes n _)

-- If the pointer of a schema is still at the segment that the consumer has open, and the header fits: after the
-- pause, the consumer has the segment open, and its counter is as before, but the segment is not in
-- the set of what the process holds.
pub reopen_unheld :
    (crc_ok : Name → Bool) (pid : Name) (a : Attached) (schema n : Name)
    → a.registry.current schema ≡ some n
    → a.segments schema ≡ n
    → crc_ok n ≡ true
    → 0 < a.registry.refcount n
    → ((reopen crc_ok pid a schema).segments schema ≡ n)
      × ((reopen crc_ok pid a schema).registry.refcount n ≡ a.registry.refcount n)
      × (contains n ((reopen crc_ok pid a schema).registry.pid_segments pid) ≡ false)
unfolding reopen reopen_found swap_segment
reopen_unheld crc_ok pid a schema n current held fits used =
    let test : not (n == a.segments schema) ≡ false =
      ap (λ m. not (n == m)) held ∙ ap not (==_self n) in
    let end : reopen crc_ok pid a schema
        ≡ record a { registry = close_script (open_transaction a.registry pid n) pid n } =
      ap (reopen_found crc_ok pid a schema) current
      ∙ if_yes (crc_ok n) _ _ fits
      ∙ if_no _ _ _ test in
    (
      ap (λ (b : Attached). b.segments schema) end ∙ held,
      ap (λ (b : Attached). b.registry.refcount n) end ∙ opened_counter a.registry pid n used,
      ap (λ (b : Attached). contains n (b.registry.pid_segments pid)) end
          ∙ closed_unheld (open_transaction a.registry pid n) pid n,
    )
