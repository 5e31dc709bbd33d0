-- ===== src/Ops/Told.antt =====
-- internal/ops/ops.go: what the posting of an entry, with or without a key, does to the accounts.
use bytedance_double_entry_l.Prelude.{
  map, ℕ, ◌≡◌, sym, ap, subst, ◌∙◌, String, Bool, Bool-cases, true, false, ◌⊎◌, inl, inr, Option,
  none, total, str_eq,
}
use bytedance_double_entry_l.Prelude.Int.{◌+ℤ◌}
use bytedance_double_entry_l.Errors.{ok, ok_inj, err-ne-ok}
use bytedance_double_entry_l.Ledger.Entry.{Entry}
use bytedance_double_entry_l.Store.Schema.{Db, Json, SameRows, SameRows-trans, same_db}
use bytedance_double_entry_l.Store.Session.{Session, ◌>>◌}
use bytedance_double_entry_l.Store.Session.Inversion.{query_then-ok, >>=-ok, fst_eq, snd_eq}
use bytedance_double_entry_l.Store.Session.Atomic.{run_in_tx-ok}
use bytedance_double_entry_l.Store.Posting.{Guard, post_entry, post_entry_guarded, post_entry_tx}
use bytedance_double_entry_l.Store.Posting.Commit.{Posted, post_entry_tx-Posted}
use bytedance_double_entry_l.Store.Posting.Balances.{leg_to}
use bytedance_double_entry_l.Store.Books.{posted_to, book, IsConsistent, IsConsistent-SameRows}
use bytedance_double_entry_l.Store.Books.Sound.{with_keys-IsConsistent}
use bytedance_double_entry_l.Store.Books.Post.{posted_total}
use bytedance_double_entry_l.Store.Books.Credited.{credited, posted-accounts}
use bytedance_double_entry_l.Store.Payments.{
  PaymentLegs, payment_kind, payment_rows, get_payment_legs,
}
use bytedance_double_entry_l.Store.Idempotency.{
  IdemResult, idempotent_tx, post_entry_idempotent, post_entry_idempotent_guarded,
}
use bytedance_double_entry_l.Store.Idempotency.Keys.{read_replay-replayed}
use bytedance_double_entry_l.Store.Idempotency.Once.{idempotent_tx-ok}
use bytedance_double_entry_l.Ops.{Request, OpResult, post_idem}

-- Every account has changed by its legs of the entry, in its row and in its postings.
abbrev pub Moved : Entry → Db → Db → Type 0
Moved e a b =
    (b.accounts ≡ map (credited e.legs) a.accounts)
    × ((i : ℕ) → book b i ≡ book a i +ℤ total (leg_to i) e.legs)

-- Nothing is changed and the result is marked as a replay, or the entry is posted.
abbrev pub Told : Entry → Bool → Db → Db → Type 0
Told e replayed a b = ((replayed ≡ true) × SameRows a b) ⊎ ((replayed ≡ false) × Moved e a b)

module _ (e : Entry) where
  posted-Moved :
      {guard : Option _} (a b c : Db) {r : _}
      → Posted e guard b r c
      → IsConsistent b
      → b.accounts ≡ a.accounts
      → b.postings ≡ a.postings
      → Moved e a c
  posted-Moved a b c p h rows same = (
    posted-accounts p h ∙ ap (map (credited e.legs)) rows,
    λ i. posted_total p i ∙ ap (λ ps. total (posted_to i) ps +ℤ total (leg_to i) e.legs) same,
  )

  same_book :
      (a b c : Db) → c.accounts ≡ b.accounts → c.postings ≡ b.postings → Moved e a b → Moved e a c
  same_book a b c rows same (accounts, books) =
      (rows ∙ accounts, λ i. ap (λ ps. total (posted_to i) ps) same ∙ books i)

  unkeyed-Moved :
      (s : Session) {r : _} {s' : Session}
      → IsConsistent s.db
      → post_entry e s ≡ (ok r, s')
      → Moved e s.db s'.db
  unfolding post_entry post_entry_guarded
  unkeyed-Moved s {s' = s'} c h =
      let (s₁, s₂, same, run, is) = run_in_tx-ok (post_entry_tx e none) s h in
      same_book s.db s₂.db s'.db (ap Db.accounts is) (ap Db.postings is) (
        posted-Moved s.db s₁.db s₂.db (post_entry_tx-Posted e none s₁ run)
          (IsConsistent-SameRows same c) same.accounts same.postings)

  pub keyed-Told :
      (guard : Option Guard) (key hash : String) (response : Json) (s : Session) {r : IdemResult}
      {s' : Session}
      → IsConsistent s.db
      → post_entry_idempotent_guarded key hash e response guard s ≡ (ok r, s')
      → Told e r.replayed s.db s'.db
  unfolding post_entry_idempotent_guarded
  keyed-Told guard key hash response s {r} {s'} c h = elim (Bool-cases (str_eq key "")) [
    | inl unnamed ↦ absurd (err-ne-ok (fst_eq (rw unnamed at h)))
    | inr named ↦
        let (s₁, s₂, same, run, is) =
          run_in_tx-ok (idempotent_tx key hash e response guard) s (rw named at h) in
        elim (idempotent_tx-ok key hash e response guard s₁ run) [
          | inl o ↦ inr (
            ap IdemResult.replayed o.result,
            same_book s.db o.mid s'.db (ap Db.accounts is ∙ ap Db.accounts o.written)
                (ap Db.postings is ∙ ap Db.postings o.written)
                (posted-Moved s.db _ o.mid o.posting
                  (with_keys-IsConsistent _ s₁.db (IsConsistent-SameRows same c)) same.accounts
                  same.postings),
          )
          | inr (found, kept) ↦
              inl (
                read_replay-replayed key hash s₁.db found,
                SameRows-trans same (same_db (is ∙ kept)),
              )
        ]
  ]

  unguarded-Told :
      (key hash : String) (response : Json) (s : Session) {r : IdemResult} {s' : Session}
      → IsConsistent s.db
      → post_entry_idempotent key hash e response s ≡ (ok r, s')
      → Told e r.replayed s.db s'.db
  unfolding post_entry_idempotent
  unguarded-Told key hash response s c h = keyed-Told none key hash response s c h

  pub post_idem-Told :
      (hash_request : Request → String) (key : String) (req : Request) (s : Session) {r : OpResult}
      {s' : Session}
      → IsConsistent s.db
      → post_idem hash_request key e req s ≡ (ok r, s')
      → Told e r.replayed s.db s'.db
  unfolding post_idem
  post_idem-Told hash_request key req s {r} {s'} c h = elim (Bool-cases (str_eq key "")) [
    | inl unkeyed ↦
        let (p, s₁, run, last) = >>=-ok (post_entry e) _ s (rw unkeyed at h) in
        subst (λ (t : Session). Told e r.replayed s.db t.db) (snd_eq last)
          (inr (sym (ap OpResult.replayed (ok_inj (fst_eq last))), unkeyed-Moved s c run))
    | inr keyed ↦
        let (p, s₁, run, last) =
          >>=-ok (post_entry_idempotent key (hash_request req) e _) _ s (rw keyed at h) in
        subst (λ (t : Session). Told e r.replayed s.db t.db) (snd_eq last)
          (subst (λ b. Told e b s.db s₁.db) (ap OpResult.replayed (ok_inj (fst_eq last)))
            (unguarded-Told key (hash_request req) _ s c run))
  ]

pub get_payment_legs-db :
    (i : ℕ) (s : Session) {legs : PaymentLegs} {t : Session}
    → get_payment_legs i s ≡ (ok legs, t)
    → t.db ≡ s.db
unfolding get_payment_legs ◌>>◌
get_payment_legs-db i s h =
    let (u, s₁, kind, same, h₁) = query_then-ok (payment_kind i) _ s h in
    let (rows, s₂, read, same₂, h₂) = query_then-ok (λ db. ok (payment_rows i db)) _ s₁ h₁ in
    sym (ap Session.db (snd_eq h₂)) ∙ same₂ ∙ same
