-- ===== src/Addresses/Order.antt =====
-- The order of address entries, and a set of them.
use udptun.Prelude.{◌≡◌, refl, sym, ◌∙◌, true, false, [], ◌∷◌, arith, length}
use udptun.Addresses.{AddressEntry, memcmp_less, entry_less}
use udptun.Wire.{Bytes}

memcmp_less_irrefl : (xs : Bytes) → memcmp_less xs xs ≡ false
unfolding memcmp_less
memcmp_less_irrefl [] = refl
memcmp_less_irrefl (x ∷ xs) = ground (arith, memcmp_less_irrefl xs)

memcmp_less_trans :
    (xs ys zs : Bytes)
    → memcmp_less xs ys ≡ true
    → memcmp_less ys zs ≡ true
    → memcmp_less xs zs ≡ true
unfolding memcmp_less
memcmp_less_trans [] ys zs h k = cc
memcmp_less_trans (x ∷ xs) [] zs h k = cc
memcmp_less_trans (x ∷ xs) (y ∷ ys) [] h k = cc
memcmp_less_trans (x ∷ xs) (y ∷ ys) (z ∷ zs) h k =
    let ih : memcmp_less xs ys ≡ true → memcmp_less ys zs ≡ true → memcmp_less xs zs ≡ true =
      memcmp_less_trans xs ys zs in
    ground arith

memcmp_less-ext :
    (xs ys : Bytes)
    → length xs ≡ length ys
    → memcmp_less xs ys ≡ false
    → memcmp_less ys xs ≡ false
    → xs ≡ ys
unfolding memcmp_less
memcmp_less-ext [] [] e h k = refl
memcmp_less-ext [] (y ∷ ys) e h k = absurd (omega arith)
memcmp_less-ext (x ∷ xs) [] e h k = absurd (omega arith)
memcmp_less-ext (x ∷ xs) (y ∷ ys) e h k =
    let len : length xs ≡ length ys = omega arith in
    let head : x ≡ y = ground arith in
    let l : memcmp_less xs ys ≡ false = ground arith in
    let r : memcmp_less ys xs ≡ false = ground arith in
    let rest : xs ≡ ys = memcmp_less-ext xs ys len l r in cc

-- What the order compares, in turn.
abbrev key : AddressEntry → Bytes
key a = a.flags ∷ a.family ∷ a.socktype ∷ a.protocol ∷ length a.addr ∷ a.addr

entry_less-key : (a b : AddressEntry) → entry_less a b ≡ memcmp_less (key a) (key b)
unfolding entry_less memcmp_less
entry_less-key a b = refl

pub entry_less_irrefl : (a : AddressEntry) → entry_less a a ≡ false
entry_less_irrefl a = entry_less-key a a ∙ memcmp_less_irrefl (key a)

pub entry_less_trans :
    (a b c : AddressEntry) → entry_less a b ≡ true → entry_less b c ≡ true → entry_less a c ≡ true
entry_less_trans a b c h k =
    entry_less-key a c
    ∙ memcmp_less_trans (key a) (key b) (key c) (sym (entry_less-key a b) ∙ h)
        (sym (entry_less-key b c) ∙ k)

-- Where neither of two is less, the numbers and the bytes are the same.
less_neither-len :
    (a b : AddressEntry)
    → entry_less a b ≡ false
    → entry_less b a ≡ false
    → length a.addr ≡ length b.addr
unfolding entry_less
less_neither-len a b h k = ground arith

key-inj : (a b : AddressEntry) → key a ≡ key b → a ≡ b
key-inj a b e = ground arith

pub entry_less-ext : (a b : AddressEntry) → entry_less a b ≡ false → entry_less b a ≡ false → a ≡ b
entry_less-ext a b h k =
    let len : length a.addr ≡ length b.addr = less_neither-len a b h k in
    let lens : length (key a) ≡ length (key b) = omega arith in
    key-inj a b (
      memcmp_less-ext (key a) (key b) lens (sym (entry_less-key a b) ∙ h)
        (sym (entry_less-key b a) ∙ k))
