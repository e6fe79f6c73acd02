-- ===== src/Codec/Lines.antt =====
-- Single lines of a file, read (internal/client/gs108tv2/codec.go).
use terraform_provider_netge.Base.{
  ℕ, ◌<◌, ◌≤◌, ◌≡◌, refl, ap, ◌∙◌, Bool, true, false, ◌||◌, none, some, List, [], ◌∷◌, ◌++◌, arith,
  Bytes, All, ascii, has_prefix, trim_right, carriage_return, ltb,
}
use terraform_provider_netge.Model.{PortMembership}
use terraform_provider_netge.Grammar.{
  fields, decimal, vlan_word, parse_vlan_declares, parse_vlan_membership, parse_vlan_pvid,
  vlan_declare_line, vlan_membership_line, vlan_pvid_line, membership_word, default_port_count,
}
use terraform_provider_netge.Grammar.Words.{IsWord, unwords, fields-unwords}
use terraform_provider_netge.Grammar.Trimmed.{trim_space-unwords, trim_right-unwords}
use terraform_provider_netge.Grammar.Lines.{
  IsInt, joined_as, decimal-IsWord, vlan_word-IsWord, membership_words, membership_words-IsWord,
  pvid_words, pvid_words-IsWord, parse_vlan_declares-vlan_declare_line,
  parse_vlan_membership-vlan_membership_line, parse_vlan_pvid-vlan_pvid_line,
}
use terraform_provider_netge.Codec.Scan.{
  is_vlan_line, Database, database_line, database_member, Interface, interface_line,
}

-- A line of words of which the first is "vlan".
vlan_prefix : (text : Bytes) → has_prefix (vlan_word ++ (32 ∷ text)) (ascii "vlan ") ≡ true
unfolding has_prefix
vlan_prefix text = refl

is_vlan_line-unwords :
    (w : Bytes) (ws : List Bytes)
    → IsWord w
    → All IsWord ws
    → is_vlan_line (unwords (vlan_word ∷ w ∷ ws)) ≡ true
unfolding is_vlan_line
is_vlan_line-unwords w ws h k =
    ap (λ text. has_prefix text (ascii "vlan "))
      (trim_space-unwords 118 (108 ∷ 97 ∷ 110 ∷ []) (w ∷ ws) vlan_word-IsWord (h, k))
    ∙ vlan_prefix (unwords (w ∷ ws))

-- What a line of the VLAN grammar that declares, adds.
declares-line :
    (d : Database) (line : Bytes) (vids : List ℕ)
    → is_vlan_line line ≡ true
    → parse_vlan_declares (fields line) ≡ some vids
    → database_line d line ≡ record d { declared = d.declared ++ vids; saw_vlan_line = true }
unfolding database_line
declares-line d line vids v e = rw (database_line, v, e) refl

member-line :
    (d : Database) (line : Bytes) (vid port : ℕ) (m : PortMembership)
    → is_vlan_line line ≡ true
    → parse_vlan_declares (fields line) ≡ none
    → parse_vlan_membership (fields line) ≡ some (vid, port, m)
    → 0 < port
    → port ≤ default_port_count
    → database_line d line ≡ record d {
      members = d.members ++ (record { vid = vid; port = port; membership = m } ∷ []);
      saw_vlan_line = true;
    }
unfolding database_line
member-line d line vid port m v e f low high =
    let inside : (ltb port 1 || ltb default_port_count port) ≡ false = ground (arith, low, high) in
    rw (database_line, v, e, f, database_member, inside) refl

pvid-line :
    (port vid : ℕ) (p : Interface) (line : Bytes)
    → is_vlan_line line ≡ true
    → parse_vlan_pvid (fields line) ≡ some vid
    → interface_line port p line ≡ record p { pvid = vid; pass = p.pass ++ (line ∷ []) }
unfolding interface_line
pvid-line port vid p line v e = rw (interface_line, v, e) refl

-- The lines that the driver writes.
pub read-vlan_declare_line :
    (d : Database) (vid : ℕ)
    → IsInt vid
    → database_line d (trim_right carriage_return (vlan_declare_line vid))
      ≡ record d { declared = d.declared ++ (vid ∷ []); saw_vlan_line = true }
unfolding vlan_declare_line
read-vlan_declare_line d vid h =
    let words : All IsWord (vlan_word ∷ decimal vid ∷ []) =
      (vlan_word-IsWord, (decimal-IsWord vid, tt)) in
    ap (database_line d) (trim_right-unwords (vlan_word ∷ decimal vid ∷ []) words)
    ∙ declares-line d (unwords (vlan_word ∷ decimal vid ∷ [])) (vid ∷ [])
        (is_vlan_line-unwords (decimal vid) [] (decimal-IsWord vid) tt)
        (parse_vlan_declares-vlan_declare_line vid h)

five_words : (a b c d e : Bytes) → parse_vlan_declares (a ∷ b ∷ c ∷ d ∷ e ∷ []) ≡ none
unfolding parse_vlan_declares
five_words a b c d e = refl

pub read-vlan_membership_line :
    (d : Database) (vid port : ℕ) (b : Bool)
    → IsInt vid
    → 0 < port
    → port ≤ default_port_count
    → database_line d (trim_right carriage_return (vlan_membership_line vid port (joined_as b)))
      ≡ record d {
        members = d.members ++ (record { vid = vid; port = port; membership = joined_as b } ∷ []);
        saw_vlan_line = true;
      }
unfolding vlan_membership_line
read-vlan_membership_line d vid port b h low high =
    let words = membership_words-IsWord vid port b in
    ap (database_line d) (trim_right-unwords (membership_words vid port b) words)
    ∙ member-line d (unwords (membership_words vid port b)) vid port (joined_as b)
        (is_vlan_line-unwords (decimal vid)
          (ascii "port" ∷ (48 ∷ 47 ∷ decimal port) ∷ membership_word (joined_as b) ∷ []) words.1.0
          words.1.1)
        (ap parse_vlan_declares (fields-unwords (membership_words vid port b) words)
          ∙ five_words _ _ _ _ _)
        (parse_vlan_membership-vlan_membership_line vid port b h (low, omega arith)) low high

pub read-vlan_pvid_line :
    (port vid : ℕ) (p : Interface)
    → IsInt vid
    → interface_line port p (trim_right carriage_return (vlan_pvid_line vid))
      ≡ record p { pvid = vid; pass = p.pass ++ (vlan_pvid_line vid ∷ []) }
unfolding vlan_pvid_line
read-vlan_pvid_line port vid p h =
    let words = pvid_words-IsWord vid in
    ap (interface_line port p) (trim_right-unwords (pvid_words vid) words)
    ∙ pvid-line port vid p (unwords (pvid_words vid))
        (is_vlan_line-unwords (ascii "pvid") (decimal vid ∷ []) words.1.0 words.1.1)
        (parse_vlan_pvid-vlan_pvid_line vid h)
