-- ===== src/Textcfg/Canonical.antt =====
-- CanonicalBytes, the identity of a configuration across reads (internal/fastpath/textcfg.go).
use terraform_provider_netge.Base.{
  ◌≡◌, ◌↔◌, refl, sym, ap, ◌∙◌, true, false, Bool-cases, inl, inr, List, [], ◌∷◌, ◌++◌, of_both,
  Bytes, All, has_prefix, trim_space, split_lines, join_lines, is_empty, IsLine, split_lines-IsLine,
  split_lines-join_lines,
}
use terraform_provider_netge.Textcfg.{TextConfig, without_uptime, canonical_bytes, uptime_mark}

without_uptime-IsLine : (ls : List Bytes) → All IsLine ls → All IsLine (without_uptime ls)
unfolding without_uptime
without_uptime-IsLine [] h = tt
without_uptime-IsLine (l ∷ ls) h =
    of_both (All IsLine) (has_prefix (trim_space l) uptime_mark) _ _ (without_uptime-IsLine ls h.1)
      (h.0, without_uptime-IsLine ls h.1)

-- The lines that the comparison of two reads keeps.
abbrev pub kept_lines : TextConfig → List Bytes
kept_lines tc = without_uptime (split_lines tc.raw)

split_lines-canonical_bytes :
    (tc : TextConfig)
    → is_empty (kept_lines tc) ≡ false
    → split_lines (canonical_bytes tc) ≡ kept_lines tc
unfolding canonical_bytes
split_lines-canonical_bytes tc some_kept =
    split_lines-join_lines (kept_lines tc) some_kept
      (without_uptime-IsLine (split_lines tc.raw) (split_lines-IsLine tc.raw))

-- Two files that each have a line other than up-time lines have the same canonical bytes
-- exactly if they have the same lines without the up-time lines.
pub canonical_bytes_iff :
    (tc tc' : TextConfig)
    → is_empty (kept_lines tc) ≡ false
    → is_empty (kept_lines tc') ≡ false
    → (canonical_bytes tc ≡ canonical_bytes tc') ↔ (kept_lines tc ≡ kept_lines tc')
unfolding canonical_bytes
canonical_bytes_iff tc tc' some_kept some_kept' = (
  λ e.
      sym (split_lines-canonical_bytes tc some_kept)
      ∙ ap split_lines e
      ∙ split_lines-canonical_bytes tc' some_kept',
  λ e. ap join_lines e,
)

without_uptime-append :
    (xs ys : List Bytes) → without_uptime (xs ++ ys) ≡ without_uptime xs ++ without_uptime ys
unfolding without_uptime
without_uptime-append [] ys = refl
without_uptime-append (l ∷ xs) ys = elim (Bool-cases (has_prefix (trim_space l) uptime_mark)) [
  | inl h ↦ rw h (without_uptime-append xs ys)
  | inr h ↦ rw h (ap (◌∷◌ l) (without_uptime-append xs ys))
]

-- Two files that differ in one up-time line only, and whose lines have no newline, have the
-- same canonical bytes, and so the same fingerprint.
pub canonical_bytes-uptime :
    (tc tc' : TextConfig) (before after : List Bytes) (uptime uptime' : Bytes)
    → tc.raw ≡ join_lines (before ++ (uptime ∷ after))
    → tc'.raw ≡ join_lines (before ++ (uptime' ∷ after))
    → All IsLine (before ++ (uptime ∷ after))
    → All IsLine (before ++ (uptime' ∷ after))
    → has_prefix (trim_space uptime) uptime_mark ≡ true
    → has_prefix (trim_space uptime') uptime_mark ≡ true
    → canonical_bytes tc ≡ canonical_bytes tc'
unfolding canonical_bytes
canonical_bytes-uptime tc tc' before after uptime uptime' e e' lines lines' h h' =
    ap join_lines (restamped tc uptime e lines h ∙ sym (restamped tc' uptime' e' lines' h'))
  where
    is_empty-append : (xs ys : List Bytes) (l : Bytes) → is_empty (xs ++ (l ∷ ys)) ≡ false
    is_empty-append [] ys l = refl
    is_empty-append (x ∷ xs) ys l = refl

    dropped :
        (l : Bytes)
        → has_prefix (trim_space l) uptime_mark ≡ true
        → without_uptime (l ∷ after) ≡ without_uptime after
    dropped l h = rw (without_uptime, h) refl

    restamped :
        (tc : TextConfig) (l : Bytes)
        → tc.raw ≡ join_lines (before ++ (l ∷ after))
        → All IsLine (before ++ (l ∷ after))
        → has_prefix (trim_space l) uptime_mark ≡ true
        → kept_lines tc ≡ without_uptime before ++ without_uptime after
    restamped tc l e lines h =
        ap (λ raw. without_uptime (split_lines raw)) e
        ∙ ap without_uptime
            (split_lines-join_lines (before ++ (l ∷ after)) (is_empty-append before after l) lines)
        ∙ without_uptime-append before (l ∷ after)
        ∙ ap (λ ls. without_uptime before ++ ls) (dropped l h)
