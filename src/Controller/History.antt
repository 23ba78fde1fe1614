-- ===== src/Controller/History.antt =====
-- The history keeps the newest 500 entries.
use secretd.Prelude.{
  ℕ, ◌+◌, ◌-◌, ◌≤◌, ap, ◌≡◌, zero, suc, refl, inl, inr, List, [], ◌∷◌, ◌++◌, arith, length, drop,
  ltb, Option, Bool-cases, if◌then◌else◌,
}
use secretd.Prelude.Text.{Text}
use secretd.Process.{ProcessIdentity}
use secretd.Controller.State.{Controller, AuditAction, AuditEntry}
use secretd.Controller.Audit.{max_audit_entries, now_millis, new_uuid, latest, record_audit}

pub length-append_last : {A : Type 0} (xs : List A) (x : A) → length (xs ++ x ∷ []) ≡ length xs + 1
length-append_last [] x = refl
length-append_last (y ∷ xs) x = ground (arith, length-append_last xs x)

length-drop : {A : Type 0} (n : ℕ) (xs : List A) → length (drop n xs) ≡ length xs - n
length-drop zero xs = ground arith
length-drop (suc n) [] = ground arith
length-drop (suc n) (x ∷ xs) = ground (arith, length-drop n xs)

take_drop : {A : Type 0} (n : ℕ) (xs : List A) → (dropped : List A) × (xs ≡ dropped ++ drop n xs)
take_drop zero xs = ([], refl)
take_drop (suc n) [] = ([], refl)
take_drop (suc n) (x ∷ xs) = let (dropped, e) = take_drop n xs in (x ∷ dropped, ap (λ ys. x ∷ ys) e)

drop-append_last :
    {A : Type 0} (n : ℕ) (xs : List A) (x : A)
    → n ≤ length xs
    → drop n (xs ++ x ∷ []) ≡ drop n xs ++ x ∷ []
drop-append_last zero xs x h = refl
drop-append_last (suc n) [] x h = absurd (omega (arith, h))
drop-append_last (suc n) (y ∷ xs) x h = drop-append_last n xs x (omega (arith, h))

-- The entries that stay of those before, in their order: all of them, or the newest 499.
abbrev pub Kept : List AuditEntry → List AuditEntry → Type 0
Kept before kept =
    (dropped : List AuditEntry) × (before ≡ dropped ++ kept)
    × (length kept
        ≡ (if ltb (length before) max_audit_entries then length before else max_audit_entries - 1))

abbrev capped : List AuditEntry → List AuditEntry
capped entries = if ltb max_audit_entries (length entries) then latest entries else entries

capped-append_last :
    (before : List AuditEntry) (entry : AuditEntry)
    → (kept : List AuditEntry) × (capped (before ++ entry ∷ []) ≡ kept ++ entry ∷ [])
      × Kept before kept
capped-append_last before entry =
    let all = before ++ entry ∷ [] in
    let grown : length all ≡ length before + 1 = length-append_last before entry in
    let n = length all - max_audit_entries in
    elim (Bool-cases (ltb max_audit_entries (length all))) [
      | inl over ↦
          let (dropped, e) = take_drop n before in
          let small : n ≤ length before = ground (arith, grown) in
          (
            drop n before,
            rw over (drop-append_last n before entry small),
            (dropped, e, ground (arith, grown, length-drop n before)),
          )
      | inr under ↦ (before, rw under refl, ([], refl, ground (arith, grown)))
    ]

-- A new entry, with its action, secret, time to live and process and the time of now, is the last
-- one of the history. Before it, in their order, stand all the entries that were there if those
-- were fewer than 500, and the newest 499 of them otherwise.
pub record_audit_lem :
    (action : AuditAction) (secret : Text) (ttl : Option ℕ) (process : ProcessIdentity)
    (c : Controller)
    → let after = record_audit action secret ttl process c in
      (entry : AuditEntry) × (entry.action ≡ action)
      × (entry.secret ≡ secret)
      × (entry.ttl_seconds ≡ ttl)
      × (entry.process ≡ process)
      × (entry.occurred_at ≡ now_millis c)
      × (kept : List AuditEntry) × (after.audit ≡ kept ++ entry ∷ [])
      × Kept c.audit kept
unfolding record_audit
record_audit_lem action secret ttl process c =
    let entry : AuditEntry = record {
      id = new_uuid c;
      occurred_at = now_millis c;
      action = action;
      secret = secret;
      ttl_seconds = ttl;
      process = process;
    } in
    let (kept, e, newest) = capped-append_last c.audit entry in
    (entry, refl, refl, refl, refl, refl, kept, e, newest)

-- The history keeps at most 500 entries.
pub record_audit-short :
    (action : AuditAction) (secret : Text) (ttl : Option ℕ) (process : ProcessIdentity)
    (c : Controller)
    → length (record_audit action secret ttl process c).audit ≤ max_audit_entries
record_audit-short action secret ttl process c =
    let (entry, _, _, _, _, _, kept, e, newest) = record_audit_lem action secret ttl process c in
    let (_, _, n) = newest in rw e (ground (arith, n, length-append_last kept entry))
