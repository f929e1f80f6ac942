-- ===== src/Exporter/Headers.antt =====
-- internal/exporter/otlp.go: `parseHeaders` of the headers that OTLP_HEADERS names.
use tracearr.Prelude.{◌≡◌, ◌∙◌, refl, ap, false, List, [], ◌∷◌, ◌++◌, some, arith, nat_eq}
use tracearr.Prelude.Lists.{Bytes, All, contains, is_empty}
use tracearr.Prelude.Map
use tracearr.Exporter.{
  Headers, bytes_key, cons_head, split_commas, cut_equals, add_header, parse_header, parse_all,
  parse_headers,
}

-- key=value
unfoldable pub header_text : Bytes × Bytes → Bytes
header_text (k, v) = k ++ (b'=' ∷ v)

-- with a comma between them
unfoldable pub headers_text : Bytes × Bytes → List (Bytes × Bytes) → Bytes
unfolding header_text
headers_text h [] = header_text h
headers_text h (next ∷ rest) = header_text h ++ (b',' ∷ headers_text next rest)

unfoldable pub insert_all : List (Bytes × Bytes) → Headers → Headers
insert_all [] out = out
insert_all ((k, v) ∷ rest) out = insert_all rest (Map.insert k v out)

-- What a header that can be written satisfies: its name is not empty and has no equals sign, there is no
-- comma, and no white space at an end.
pub record IsWritable (trim_space : Bytes → Bytes) (h : Bytes × Bytes) : Type 0 where
  pub named : is_empty h.0 ≡ false
  pub no_equals : contains h.0 b'=' ≡ false
  pub no_comma : contains (header_text h) b',' ≡ false
  pub trimmed : trim_space (header_text h) ≡ header_text h
  pub name_trimmed : trim_space h.0 ≡ h.0
  pub value_trimmed : trim_space h.1 ≡ h.1

split_commas-last : (part : Bytes) → contains part b',' ≡ false → split_commas part ≡ part ∷ []
unfolding split_commas cons_head contains
split_commas-last [] h = refl
split_commas-last (b ∷ bs) h = ground (arith, h, split_commas-last bs)

split_commas-comma :
    (part rest : Bytes)
    → contains part b',' ≡ false
    → split_commas (part ++ (b',' ∷ rest)) ≡ part ∷ split_commas rest
unfolding split_commas cons_head contains
split_commas-comma [] rest h = refl
split_commas-comma (b ∷ bs) rest h = ground (arith, h, split_commas-comma bs rest)

cut_equals-append :
    (k v : Bytes) → contains k b'=' ≡ false → cut_equals (k ++ (b'=' ∷ v)) ≡ some (k, v)
unfolding cut_equals contains
cut_equals-append [] v h = refl
cut_equals-append (b ∷ bs) v h = ground (arith, h, cut_equals-append bs v)

is_empty-append : (k rest : Bytes) → is_empty k ≡ false → is_empty (k ++ rest) ≡ false
is_empty-append [] rest h = absurd (cc h)
is_empty-append (b ∷ bs) rest h = refl

module _ (trim_space : Bytes → Bytes) where
  parse_header-written :
      (h : Bytes × Bytes) (out : Headers)
      → IsWritable trim_space h
      → parse_header trim_space (header_text h) out ≡ Map.insert h.0 h.1 out
  unfolding parse_header add_header header_text
  parse_header-written (k, v) out ok =
      rw
        (
          ok.trimmed,
          is_empty-append k (b'=' ∷ v) ok.named,
          cut_equals-append k v ok.no_equals,
          ok.named,
          ok.name_trimmed,
          ok.value_trimmed,
        )
        refl

  parse_all-written :
      (h : Bytes × Bytes) (rest : List (Bytes × Bytes)) (out : Headers)
      → IsWritable trim_space h
      → All (IsWritable trim_space) rest
      → parse_all trim_space (split_commas (headers_text h rest)) out ≡ insert_all (h ∷ rest) out
  unfolding parse_all headers_text insert_all
  parse_all-written h [] out ok all =
      ap (λ parts. parse_all trim_space parts out) (split_commas-last (header_text h) ok.no_comma)
      ∙ parse_header-written h out ok
  parse_all-written h (next ∷ rest) out ok all =
      ap (λ parts. parse_all trim_space parts out)
        (split_commas-comma (header_text h) (headers_text next rest) ok.no_comma)
      ∙ ap (λ m. parse_all trim_space (split_commas (headers_text next rest)) m)
          (parse_header-written h out ok)
      ∙ parse_all-written next rest (Map.insert h.0 h.1 out) all.0 all.1

  -- Headers that are written as key=value with commas between them are read back: the map has them all,
  -- the later value where a name stands twice. A name is not empty, has no equals sign, and there is no
  -- comma and no white space at an end of a name, a value or a header.
  pub parse_headers-headers_text :
      (h : Bytes × Bytes) (rest : List (Bytes × Bytes))
      → IsWritable trim_space h
      → All (IsWritable trim_space) rest
      → parse_headers trim_space (headers_text h rest) ≡ insert_all (h ∷ rest) []
  unfolding parse_headers
  parse_headers-headers_text h rest ok all = parse_all-written h rest [] ok all
