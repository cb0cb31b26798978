-- ===== src/Consumer/Ledger/Once.antt =====
-- What is delivered again counts nothing.
use url_shortener.Common.{
  ℕ, ◌≡◌, ◌⊎◌, inl, inr, refl, sym, ap, ◌∙◌, true, Bool-cases, Bytes, List, [], ◌∷◌, Option, All,
  text_eq, text_eq_refl,
}
use url_shortener.Common.Int64.{ℤ}
use url_shortener.World.Platform.{Platform}
use url_shortener.World.Analytics.{Worker, Message, Key, Tally}
use url_shortener.Consumer.Laws.{WorkerLaws}
use url_shortener.Consumer.Ledger.{
  Ledger, code_of, book, book_all, IsServing, IsStamped, deliver_all,
}
use url_shortener.Consumer.Ledger.Refined.{deliver_all-Shows}

-- The list contains the message.
pub data Has (m : Message) : List Message → Type 0 where
  first : {rest : List Message} → Has m (m ∷ rest)
  later : {n : Message} {rest : List Message} → Has m rest → Has m (n ∷ rest)

-- The message is one that changes the ledger no more.
abbrev IsSettled : Ledger → Message → Type 0
IsSettled l m = (text_eq (code_of m) [] ≡ true) ⊎ (l.seen m.id ≡ true)

module _ (ids : Bytes → Option ℕ) (day : ℤ → Bytes) where
  book_settled : (m : Message) (l : Ledger) → IsSettled l m → book ids day m l ≡ l
  unfolding book
  book_settled m l (inl e) = rw e refl
  book_settled m l (inr e) = elim (Bool-cases (text_eq (code_of m) [])) [
    | inl y ↦ rw y refl
    | inr y ↦ rw (y, e) refl
  ]

  IsSettled-book : (m : Message) (l : Ledger) → IsSettled (book ids day m l) m
  unfolding book
  IsSettled-book m l = elim (Bool-cases (text_eq (code_of m) [])) [
    | inl y ↦ inl y
    | inr y ↦ elim (Bool-cases (l.seen m.id)) [
      | inl s ↦ inr (rw (y, s) s)
      | inr s ↦ inr (rw (y, s, text_eq_refl m.id) refl)
    ]
  ]

  book_keeps : (m n : Message) (l : Ledger) → IsSettled l n → IsSettled (book ids day m l) n
  unfolding book
  book_keeps m n l (inl e) = inl e
  book_keeps m n l (inr e) = inr (elim (Bool-cases (text_eq (code_of m) [])) [
    | inl y ↦ rw y e
    | inr y ↦ elim (Bool-cases (l.seen m.id)) [
      | inl s ↦ rw (y, s) e
      | inr s ↦
          rw (y, s) (elim (Bool-cases (text_eq m.id n.id)) [ inl z ↦ rw z refl | inr z ↦ rw z e ])
    ]
  ])

  all_keep :
      (msgs : List Message) (n : Message) (l : Ledger)
      → IsSettled l n
      → IsSettled (book_all ids day msgs l) n
  unfolding book_all
  all_keep [] n l h = h
  all_keep (m ∷ rest) n l h = all_keep rest n _ (book_keeps m n l h)

  all-IsSettled :
      (msgs : List Message) (n : Message) (l : Ledger)
      → Has n msgs
      → IsSettled (book_all ids day msgs l) n
  unfolding book_all
  all-IsSettled [] n l h = elim h [ ]
  all-IsSettled (m ∷ rest) n l first = all_keep rest n _ (IsSettled-book n l)
  all-IsSettled (m ∷ rest) n l (later h) = all-IsSettled rest n _ h

  book_all_settled :
      (again : List Message) (l : Ledger) → All (IsSettled l) again → book_all ids day again l ≡ l
  unfolding book_all
  book_all_settled [] l h = refl
  book_all_settled (m ∷ rest) l (h, hs) =
      ap (book_all ids day rest) (book_settled m l h) ∙ book_all_settled rest l hs

  -- What was booked once is booked for good.
  book_again :
      (msgs again : List Message) (l : Ledger)
      → All (λ m. Has m msgs) again
      → book_all ids day again (book_all ids day msgs l) ≡ book_all ids day msgs l
  book_again msgs again l h = book_all_settled again _ (settle again h)
    where
      settle :
          (ms : List Message)
          → All (λ m. Has m msgs) ms
          → All (IsSettled (book_all ids day msgs l)) ms
      settle [] k = tt
      settle (m ∷ rest) (k, ks) = (all-IsSettled msgs m l k, settle rest ks)

module _ {W : Type 0} (t : Tally W) (p : Platform W) (c : Worker W) (laws : WorkerLaws t p c)
    (ids : Bytes → Option ℕ) (serving : IsServing t c ids) where
  -- While PostgreSQL carries out every statement, the counting is effectively once: after messages
  -- whose time stamps can be read have been delivered, delivering any of them again, in any order
  -- and any number of times, changes no counter.
  pub effectively_once :
      (msgs again : List Message) (w : W)
      → All IsStamped msgs
      → All IsStamped again
      → All (λ m. Has m msgs) again
      → (j : Key)
      → t.count (deliver_all p c again (deliver_all p c msgs w)) j
        ≡ t.count (deliver_all p c msgs w) j
  effectively_once msgs again w stamped stamped_again h j =
      let l : Ledger = record { count = t.count w; seen = t.is_claimed w } in
      let s =
        deliver_all-Shows t p c laws ids serving msgs l w stamped
          (record { count = λ k. refl; seen = λ i. refl }) in
      let u =
        deliver_all-Shows t p c laws ids serving again (book_all ids c.format_day msgs l) _
          stamped_again s in
      u.count j ∙ ap (λ x. x.count j) (book_again ids c.format_day msgs again l h) ∙ sym (s.count j)
