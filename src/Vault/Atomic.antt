-- ===== src/Vault/Atomic.antt =====
-- The atomic write, and what a failure leaves on the disk.
use secretd.Prelude.{refl, ◌≡◌, Bool, true, arith, ℕ, ◌⊎◌, inr, inl}
use secretd.Prelude.Result.{Result, ok, err, Failure, Result-cases}
use secretd.Vault.Defs.{Bytes, regular, Disk, Host, Platform, VaultPlaintext}
use secretd.Vault.File.{atomic_write, save_with, seal}

-- All of the new file or all of the old one; the temporary file of this write is gone after a success,
-- and after a failure too if the system lets it be removed.
pub record IsAtomic (contents : Bytes) (before : Disk) (removable : Bool)
    (outcome : Result (Unit {0}) × Disk) : Type 0 where
  pub written : outcome.0 ≡ ok tt → outcome.1 ≡ record before { vault = regular contents }
  pub kept : (f : Failure) → outcome.0 ≡ err f → outcome.1.vault ≡ before.vault
  pub cleaned : removable ≡ true → outcome.1.temporary ≡ before.temporary

atomic_write-IsAtomic :
    (host : Host) (contents : Bytes) (disk : Disk)
    → IsAtomic contents disk host.removable (atomic_write host contents disk)
unfolding atomic_write
atomic_write-IsAtomic host contents disk = record {
  written = λ e. ground arith;
  kept = λ f e. ground arith;
  cleaned = λ r. ground arith;
}

-- Saving either replaces the whole file by the sealed vault and leaves no new temporary file, or fails
-- and leaves the file as it was.
pub save_with_atomic :
    (p : Platform) (host : Host) (plaintext : VaultPlaintext) (key salt : Bytes) (iterations : ℕ)
    (disk : Disk)
    → let outcome = save_with p host plaintext key salt iterations disk in
      ((contents : Bytes) × (seal p host plaintext key salt iterations ≡ ok contents)
        × (outcome ≡ (ok tt, record disk { vault = regular contents })))
      ⊎ ((f : Failure) × (outcome.0 ≡ err f) × (outcome.1.vault ≡ disk.vault))
unfolding save_with
save_with_atomic p host plaintext key salt iterations disk =
    elim (Result-cases (seal p host plaintext key salt iterations)) [
      | inr (f, e) ↦ inr (f, rw e refl, rw e refl)
      | inl (contents, e) ↦
          let atomic = atomic_write-IsAtomic host contents disk in
          elim (Result-cases (atomic_write host contents disk).0) [
            | inl (u, w) ↦ inl (contents, e, rw e (λ i. (w i, atomic.written w i)))
            | inr (f, w) ↦ inr (f, rw e w, rw e (atomic.kept f w))
          ]
    ]
