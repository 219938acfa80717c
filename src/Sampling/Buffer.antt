-- ===== src/Sampling/Buffer.antt =====
-- `boost::circular_buffer`, which the source only calls: a parameter with its documented behaviour.
use zpr_res_monitor.Prelude.{ℕ, ◌-◌, ◌≡◌, refl, List, [], ◌∷◌, ◌++◌, length, drop}

-- The last `n` elements.
abbrev pub last_n {ℓ} : {A : Type ℓ} → ℕ → List A → List A
last_n n xs = drop (length xs - n) xs

pub record CircularBuffer : Type 1 where
  pub Buffer : Type 0 → Type 0
  -- The constructor from a capacity.
  pub create : (A : Type 0) → ℕ → Buffer A
  pub push_back : (A : Type 0) → A → Buffer A → Buffer A
  pub capacity : (A : Type 0) → Buffer A → ℕ
  -- The elements, oldest first.
  pub elements : (A : Type 0) → Buffer A → List A

-- A full buffer gives up its oldest element; with no capacity nothing is stored.
pub record IsCircular (b : CircularBuffer) : Type 1 where
  pub capacity-create : (A : Type 0) (n : ℕ) → b.capacity A (b.create A n) ≡ n
  pub elements-create : (A : Type 0) (n : ℕ) → b.elements A (b.create A n) ≡ []
  pub capacity-push_back :
      (A : Type 0) (a : A) (x : b.Buffer A) → b.capacity A (b.push_back A a x) ≡ b.capacity A x
  pub elements-push_back :
      (A : Type 0) (a : A) (x : b.Buffer A)
      → b.elements A (b.push_back A a x) ≡ last_n (b.capacity A x) (b.elements A x ++ (a ∷ []))

-- A list with its capacity meets the description.
pub record ListBuffer (A : Type 0) : Type 0 where
  pub limit : ℕ
  pub items : List A

abbrev pub list_buffer : CircularBuffer
list_buffer = record {
  Buffer = ListBuffer;
  create = λ A n. record { limit = n; items = [] };
  push_back = λ A a x. record { limit = x.limit; items = last_n x.limit (x.items ++ (a ∷ [])) };
  capacity = λ A x. x.limit;
  elements = λ A x. x.items;
}

pub list_buffer-IsCircular : IsCircular list_buffer
list_buffer-IsCircular = record {
  capacity-create = λ A n. refl;
  elements-create = λ A n. refl;
  capacity-push_back = λ A a x. refl;
  elements-push_back = λ A a x. refl;
}
