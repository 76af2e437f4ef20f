-- ===== src/Portfolio/Ledger.antt =====
-- The store as an abstract ledger: the cash, and a signed quantity for each symbol.
use agenthedge.Prelude.{
  ℕ, ◌≡◌, inl, inr, refl, ap, ◌∙◌, List, [], ◌∷◌, String, Dict, get, get-put, get-pop, Bool-cases,
  if◌then◌else◌, ◌==◌, arith,
}
use agenthedge.Floats.{Floats}
use agenthedge.Portfolio.{
  Position, Portfolio, apply_fill, filled, settle_position, position_or_new, quantity_of,
  new_average,
}

-- a fill as the store is asked for it
pub record FillRequest (F : Type 0) : Type 0 where
  pub symbol : String
  pub quantity : F
  pub price : F

module _ (fl : Floats) where
  open fl use {F, zero_f, add_f, mul_f, neg_f, le_f, eq_f}

  -- the abstract ledger
  pub record Book : Type 0 where
    pub money : F
    pub holding : String → F

  abbrev pub settle : F → F
  settle x = if eq_f x zero_f then zero_f else x

  -- A fill is refused on a zero quantity or a price that is not positive; else it moves the cash by
  -- minus quantity times price and one holding by the quantity, and a holding that nets to zero is
  -- zero.
  unfoldable pub book_fill : FillRequest F → Book → Book
  book_fill r b = if eq_f r.quantity zero_f then b else if le_f r.price zero_f then b else record {
    money = add_f b.money (neg_f (mul_f r.quantity r.price));
    holding =
        λ s. if r.symbol == s then settle (add_f (b.holding r.symbol) r.quantity) else b.holding s;
  }

  unfoldable pub book_of : Portfolio F → Book
  book_of st = record { money = st.cash; holding = λ s. quantity_of fl s st.positions }

  unfoldable pub apply_all : ℕ → List (FillRequest F) → Portfolio F → Portfolio F
  apply_all now [] st = st
  apply_all now (r ∷ rs) st = apply_all now rs (apply_fill fl now r.symbol r.quantity r.price st).1

  unfoldable pub book_all : List (FillRequest F) → Book → Book
  book_all [] b = b
  book_all (r ∷ rs) b = book_all rs (book_fill r b)

  quantity_of-new :
      (symbol : String) (price : F) (d : Dict (Position F))
      → (position_or_new fl (get symbol d) price).quantity ≡ quantity_of fl symbol d
  unfolding position_or_new quantity_of
  quantity_of-new symbol price d = ground arith

  pub quantity_of-settle :
      (symbol s : String) (quantity price : F) (p : Position F) (d : Dict (Position F))
      → quantity_of fl s (settle_position fl symbol p quantity price d)
        ≡ (if symbol == s then settle (add_f p.quantity quantity) else quantity_of fl s d)
  unfolding quantity_of settle_position
  quantity_of-settle symbol s quantity price p d =
      let p' : Position F = record {
        quantity = add_f p.quantity quantity;
        average_cost = new_average fl p quantity price;
      } in
      ground (arith, get-pop symbol s d, get-put symbol s p' d)

  pub quantity_of-filled :
      (now : ℕ) (symbol s : String) (quantity price : F) (st : Portfolio F)
      → quantity_of fl s (filled fl now symbol quantity price st).positions ≡ (
          if symbol == s
          then settle (add_f (quantity_of fl symbol st.positions) quantity)
          else quantity_of fl s st.positions)
  unfolding filled
  quantity_of-filled now symbol s quantity price st =
      rw (← quantity_of-new symbol price st.positions) (
        quantity_of-settle symbol s quantity price
          (position_or_new fl (get symbol st.positions) price) st.positions)

  Book-eq : (b c : Book) → b.money ≡ c.money → ((s : String) → b.holding s ≡ c.holding s) → b ≡ c
  Book-eq b c m h = λ i. record { money = m i; holding = λ s. h s i }

  apply_fill-book_fill :
      (now : ℕ) (r : FillRequest F) (st : Portfolio F)
      → book_of (apply_fill fl now r.symbol r.quantity r.price st).1 ≡ book_fill r (book_of st)
  unfolding apply_fill book_fill book_of
  apply_fill-book_fill now r st = elim (Bool-cases (eq_f r.quantity zero_f)) [
    | inl z ↦ rw z
    | inr n ↦ elim (Bool-cases (le_f r.price zero_f)) [
      | inl z ↦ rw (n, z)
      | inr m ↦
          rw (n, m)
            (Book-eq _ _ (unfold filled in refl)
              λ s. quantity_of-filled now r.symbol s r.quantity r.price st)
    ]
  ]

  -- After any list of fills the store's cash and quantities are those of the abstract ledger, to the
  -- last bit of the float operations: refused fills change neither, and no other symbol is touched.
  pub apply_all-refines :
      (now : ℕ) (rs : List (FillRequest F)) (st : Portfolio F)
      → book_of (apply_all now rs st) ≡ book_all rs (book_of st)
  unfolding apply_all book_all
  apply_all-refines now [] st = refl
  apply_all-refines now (r ∷ rs) st =
      apply_all-refines now rs (apply_fill fl now r.symbol r.quantity r.price st).1
      ∙ ap (book_all rs) (apply_fill-book_fill now r st)
