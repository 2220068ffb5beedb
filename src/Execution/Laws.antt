-- ===== src/Execution/Laws.antt =====
-- About LoginContext: who is let in.
use nf_engine.Prelude.{
  ℕ, ◌≡◌, ◌↔◌, refl, sym, ap, ◌∙◌, List, true, false, none, some, arith, Option-cases, inl, inr,
}
use nf_engine.Prelude.Texts.{same_bytes, same_bytes→≡, ≡→same_bytes}
use nf_engine.Execution.{Accounts, verify, admits}

verify-found :
    (db : Accounts) (id pw db_pw : List ℕ)
    → db id ≡ some db_pw
    → admits (some db) id pw ≡ same_bytes db_pw pw
unfolding admits verify
verify-found db id pw db_pw e = rw (verify, e) refl

verify-absent : (db : Accounts) (id pw : List ℕ) → db id ≡ none → admits (some db) id pw ≡ false
unfolding admits verify
verify-absent db id pw e = rw (verify, e) refl

-- With a database, a login is let in exactly if the database has this password for the id.
pub admits_iff :
    (db : Accounts) (id pw : List ℕ) → (admits (some db) id pw ≡ true) ↔ (db id ≡ some pw)
admits_iff db id pw = elim (Option-cases (db id)) [
  | inl absent ↦ (
    λ h. absurd (let d : ⊥ = ground (arith, verify-absent db id pw absent) in d),
    λ e. absurd (let d : ⊥ = ground arith in d),
  )
  | inr (db_pw, found) ↦ (
    λ h. found ∙ ap some (same_bytes→≡ db_pw pw (sym (verify-found db id pw db_pw found) ∙ h)),
    λ e. verify-found db id pw pw e ∙ ≡→same_bytes pw,
  )
]
