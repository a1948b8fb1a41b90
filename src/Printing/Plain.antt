-- ===== src/Printing/Plain.antt =====
-- What a list of items prints where no width is set, and the text of an invitation.
use mathlib.Core.List.{append_assoc, append-nil}
use xrnetwork.Base.{
  ℕ, ◌≡◌, refl, sym, ap, ◌∙◌, List, [], ◌∷◌, ◌++◌, codes, subst, ok, ok-injective, bind_ok,
}
use xrnetwork.Base.Memory.{Block, get_le}
use xrnetwork.Printing.{
  Item, text, number, char, setw, setfill, hex, dec, endl, Stream, print, put_item, put_padded,
  c_text,
}
use xrnetwork.Printing.Digits.{digits}
use xrnetwork.Printing.Dumps.{put_padded_unfilled}
use xrnetwork.Printing.Structs.{show_join, join_items}

-- The text of items, from the base that they begin with. A width, a fill and a character have none.
unfoldable pub plain : List Item → ℕ → List ℕ
plain [] base = []
plain (text t ∷ is) base = t ++ plain is base
plain (number n ∷ is) base = digits base 20 n ++ plain is base
plain (hex ∷ is) base = plain is 16
plain (dec ∷ is) base = plain is 10
plain (endl ∷ is) base = 10 ∷ plain is base
plain (char c ∷ is) base = c ∷ plain is base
plain (setw n ∷ is) base = plain is base
plain (setfill c ∷ is) base = plain is base

-- No width is set.
abbrev pub IsPlain : List Item → Type 0
IsPlain [] = Unit
IsPlain (setw n ∷ is) = ⊥
IsPlain (i ∷ is) = IsPlain is

padded-plain :
    (is : List Item) (t : List ℕ) (s : Stream)
    → s.width ≡ 0
    → (print is (put_padded t s)).written ≡ (put_padded t s).written ++ plain is s.base
    → (print is (put_padded t s)).written ≡ s.written ++ (t ++ plain is s.base)
padded-plain is t s none_set e =
    e
    ∙ ap (λ (w : List ℕ). w ++ plain is s.base) (put_padded_unfilled t s none_set)
    ∙ append_assoc s.written t (plain is s.base)

pub print-plain :
    (is : List Item) (s : Stream)
    → IsPlain is
    → s.width ≡ 0
    → (print is s).written ≡ s.written ++ plain is s.base
unfolding print plain put_item put_padded
print-plain [] s p none_set = sym (append-nil s.written)
print-plain (text t ∷ is) s p none_set =
    padded-plain is t s none_set (print-plain is (put_padded t s) p refl)
print-plain (number n ∷ is) s p none_set =
    padded-plain is (digits s.base 20 n) s none_set
      (print-plain is (put_padded (digits s.base 20 n) s) p refl)
print-plain (char c ∷ is) s p none_set =
    padded-plain is (c ∷ []) s none_set (print-plain is (put_padded (c ∷ []) s) p refl)
print-plain (setw n ∷ is) s p none_set = absurd p
print-plain (setfill c ∷ is) s p none_set = print-plain is (record s { fill = c }) p none_set
print-plain (hex ∷ is) s p none_set = print-plain is (record s { base = 16 }) p none_set
print-plain (dec ∷ is) s p none_set = print-plain is (record s { base = 10 }) p none_set
print-plain (endl ∷ is) s p none_set =
    print-plain is (record s { written = s.written ++ 10 ∷ [] }) p none_set
    ∙ append_assoc s.written (10 ∷ []) (plain is s.base)

-- An invitation is printed with all its numbers in hexadecimal, the rate and the size of the text
-- too, whatever base the stream had: the text behind what the stream held is this one, where the
-- stream has no width set and the printing of the struct does not fail.
pub print-show_join :
    (b : Block) (is : List Item) (s : Stream)
    → show_join b ≡ ok is
    → s.width ≡ 0
    → (message : List ℕ) × ((print is s).written
        ≡ s.written
          ++ (codes "participant_id: "
              ++ (digits 16 20 (get_le 8 b.at 0)
                  ++ (codes "\nmax_data_rate: "
                      ++ (digits 16 20 (get_le 2 b.at 8)
                          ++ (codes "[messages/s]\nallow_asynchronous_messages: "
                              ++ (digits 16 20 (get_le 2 b.at 10)
                                  ++ (codes "\nmessage_buffersize: "
                                      ++ (digits 16 20 (get_le 4 b.at 12)
                                          ++ (codes " bytes\nmessage_buffer: " ++ message))))))))))
      × (c_text b 16 ≡ ok message)
unfolding show_join plain
print-show_join b is s e none_set =
    let shown = bind_ok (c_text b 16) (λ t. ok (join_items b t)) is e in
    let t = shown.0 in
    (
      t ++ [],
      subst (λ (l : List Item). (print l s).written ≡ s.written ++ plain (join_items b t) s.base)
          (ok-injective (join_items b t) is shown.2) (print-plain (join_items b t) s tt none_set),
      shown.1 ∙ ap ok (sym (append-nil t)),
    )
