-- ===== src/Loopback/Line.antt =====
-- A design that keeps the contract of Loopback.Contract, for any node. It stands for no code of the
-- repository.
use switchboard_adapter.Base.{
  ℕ, ◌≡◌, ◌≢◌, refl, sym, ap, ◌∙◌, ◌⊎◌, inl, inr, Option, none, some, List, [], ◌∷◌, ◌++◌,
}
use switchboard_adapter.Client.{Link}
use switchboard_adapter.Adapter.{Widths}
use switchboard_adapter.Loopback.Contract.{IsThrough, through_a, through_d}

pub record Line : Type 0 where
  pub a_before : List (List ℕ)
  pub a_behind : List (List ℕ)
  pub d_before : List (List ℕ)
  pub d_behind : List (List ℕ)

-- Take the first packet of a queue, and put the others back by `rest`.
abbrev pub take_first : (List (List ℕ) → Line) → List (List ℕ) → Option (List ℕ × Line)
take_first rest [] = none
take_first rest (p ∷ ps) = some (p, rest ps)

abbrev pub client_end : Link Line
client_end = record {
  send = λ p r. record r { a_before = r.a_before ++ (p ∷ []) };
  recv = λ r. take_first (λ ps. record r { d_behind = ps }) r.d_behind;
}

abbrev pub manager_end : Link Line
manager_end = record {
  send = λ p r. record r { d_before = r.d_before ++ (p ∷ []) };
  recv = λ r. take_first (λ ps. record r { a_behind = ps }) r.a_behind;
}

value : {A : Type 0} → A → Option A → A
value a none = a
value a (some b) = b

taken :
    (rest : List (List ℕ) → Line) (queue : List (List ℕ)) (p : List ℕ) (later : Line)
    → take_first rest queue ≡ some (p, later)
    → (ps : List (List ℕ)) × (queue ≡ p ∷ ps) × (rest ps ≡ later)
unfolding value
taken rest [] p later e = absurd (cc e)
taken rest (x ∷ ps) p later e =
    let same : (x, rest ps) ≡ (p, later) = ap (value (p, later)) e in
    (ps, λ i. (same i).0 ∷ ps, λ i. (same i).1)

none_left :
    (rest : List (List ℕ) → Line) (queue : List (List ℕ))
    → take_first rest queue ≡ none
    → queue ≡ []
none_left rest [] e = refl
none_left rest (x ∷ ps) e = absurd (cc e)

module _ (node : Widths) where
  abbrev pub Carries : Line → Line → Type 0
  Carries r later =
      ((p : List ℕ) × (ps : List (List ℕ)) × (r.a_before ≡ p ∷ ps)
        × (record r { a_before = ps; a_behind = r.a_behind ++ (through_a node p ∷ []) } ≡ later))
      ⊎ ((p : List ℕ) × (ps : List (List ℕ)) × (r.d_before ≡ p ∷ ps)
          × (record r { d_before = ps; d_behind = r.d_behind ++ (through_d node p ∷ []) } ≡ later))

  front :
      (queue : List (List ℕ)) → queue ≢ [] → (p : List ℕ) × (ps : List (List ℕ)) × (queue ≡ p ∷ ps)
  front [] some_left = absurd (some_left refl)
  front (p ∷ ps) some_left = (p, ps, refl)

  unfoldable pub line-IsThrough : (room : ℕ) → IsThrough client_end manager_end Carries node room
  unfolding taken none_left front
  line-IsThrough room = record {
    a_before = λ r. r.a_before;
    a_behind = λ r. r.a_behind;
    d_before = λ r. r.d_before;
    d_behind = λ r. r.d_behind;
    client_sent = λ p r fits. (refl, refl, refl, refl);
    manager_sent = λ p r fits. (refl, refl, refl, refl);
    manager_received = λ p r later e.
        let (ps, first, same) = taken (λ ps. record r { a_behind = ps }) r.a_behind p later e in
        (
          sym (ap (λ (l : Line). l.a_before) same),
          first ∙ ap (λ (l : Line). p ∷ l.a_behind) same,
          sym (ap (λ (l : Line). l.d_before) same),
          sym (ap (λ (l : Line). l.d_behind) same),
        );
    client_received = λ p r later e.
        let (ps, first, same) = taken (λ ps. record r { d_behind = ps }) r.d_behind p later e in
        (
          sym (ap (λ (l : Line). l.a_before) same),
          sym (ap (λ (l : Line). l.a_behind) same),
          sym (ap (λ (l : Line). l.d_before) same),
          first ∙ ap (λ (l : Line). p ∷ l.d_behind) same,
        );
    no_request = λ r e. none_left (λ ps. record r { a_behind = ps }) r.a_behind e;
    no_response = λ r e. none_left (λ ps. record r { d_behind = ps }) r.d_behind e;
    carried = λ r later carry. elim carry [
      | inl (p, ps, first, same) ↦ inl (
        p,
        first ∙ ap (λ (l : Line). p ∷ l.a_before) same,
        sym (ap (λ (l : Line). l.a_behind) same),
        sym (ap (λ (l : Line). l.d_before) same),
        sym (ap (λ (l : Line). l.d_behind) same),
      )
      | inr (p, ps, first, same) ↦ inr (
        p,
        first ∙ ap (λ (l : Line). p ∷ l.d_before) same,
        sym (ap (λ (l : Line). l.d_behind) same),
        sym (ap (λ (l : Line). l.a_before) same),
        sym (ap (λ (l : Line). l.a_behind) same),
      )
    ];
    busy_a = λ r some_left fits.
        let (p, ps, first) = front r.a_before some_left in (_, inl (p, ps, first, refl));
    busy_d = λ r some_left fits.
        let (p, ps, first) = front r.d_before some_left in (_, inr (p, ps, first, refl));
  }
