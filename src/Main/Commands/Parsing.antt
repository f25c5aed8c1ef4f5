-- ===== src/Main/Commands/Parsing.antt =====
-- Which lines are which commands.
use mathlib.Core.Option
use local_messenger.Common.{
  ◌≡◌, ◌≢◌, ◌↔◌, refl, sym, ap, ◌∙◌, subst, ◌==◌, [], ◌∷◌, ◌++◌, Option, none, some, Bytes,
  Bytes-discrete, codes, take, drop, take-append-drop, All, Bool-cases, inl, inr, arith,
}
use local_messenger.Storage.Sql.{some_of_map}
use local_messenger.Main.Commands.{send, split_space, send_command, parse_nonempty, parse_line}

-- No space in a text.
abbrev pub LacksSpace : Bytes → Type 0
LacksSpace s = All (λ c. c ≢ 32) s

split_space-append :
    (ip text : Bytes) → LacksSpace ip → split_space (ip ++ (32 ∷ text)) ≡ some (ip, text)
unfolding split_space
split_space-append [] text a = refl
split_space-append (c ∷ ip) text a = ground (arith, a.0, split_space-append ip text a.1)

abbrev IsSplit : Bytes → Bytes × Bytes → Type 0
IsSplit l p = LacksSpace p.0 × (l ≡ p.0 ++ (32 ∷ p.1))

split_space-IsSplit : (l : Bytes) (p : Bytes × Bytes) → split_space l ≡ some p → IsSplit l p
unfolding split_space
split_space-IsSplit [] p e = cc
split_space-IsSplit (c ∷ cs) p e = elim (Bool-cases (c == 32)) [
  | inl space ↦
      let first : ([], cs) ≡ p = ground (arith, space, e) in
      subst (IsSplit (c ∷ cs)) first (tt, ground (arith, space))
  | inr other ↦
      let found : Option.map (λ (q : Bytes × Bytes). (c ∷ q.0, q.1)) (split_space cs) ≡ some p =
        ground (arith, other, e) in
      let (q, there, same) =
        some_of_map (λ (q : Bytes × Bytes). (c ∷ q.0, q.1)) (split_space cs) found in
      let (lacks, cut) = split_space-IsSplit cs q there in
      subst (IsSplit (c ∷ cs)) same ((ground (arith, other), lacks), ap (λ l. c ∷ l) cut)
]

send_line :
    (rest : Bytes) → parse_nonempty (codes "/send " ++ rest) ≡ send_command (split_space rest)
unfolding parse_nonempty Bytes-discrete
send_line rest = ground arith

send_command-eq-send :
    (o : Option (Bytes × Bytes)) (ip text : Bytes)
    → send_command o ≡ send ip text
    → o ≡ some (ip, text)
unfolding send_command
send_command-eq-send none ip text e = cc
send_command-eq-send (some (i, t)) ip text e = ground (arith, e)

-- A line that is not one of the fixed commands, and is a send.
send_prefix : (l ip text : Bytes) → parse_nonempty l ≡ send ip text → take 6 l ≡ codes "/send "
unfolding parse_nonempty
send_prefix l ip text e = ground (arith, e)

-- A line is the command to send `text` to `ip` if and only if it is `/send`, a space, `ip` without a
-- space in it, a space, and `text`.
pub parse_line-send_iff :
    (l ip text : Bytes)
    → (parse_line l ≡ send ip text) ↔ (LacksSpace ip × (l ≡ codes "/send " ++ (ip ++ (32 ∷ text))))
unfolding parse_line
parse_line-send_iff [] ip text = (λ e. cc, λ h. cc (h.1))
parse_line-send_iff (c ∷ l) ip text = (
  λ e.
      let head : take 6 (c ∷ l) ≡ codes "/send " = send_prefix (c ∷ l) ip text e in
      let whole : codes "/send " ++ drop 6 (c ∷ l) ≡ c ∷ l =
        subst (λ x. x ++ drop 6 (c ∷ l) ≡ c ∷ l) head (take-append-drop 6 (c ∷ l)) in
      let parsed : send_command (split_space (drop 6 (c ∷ l))) ≡ send ip text =
        sym (send_line (drop 6 (c ∷ l))) ∙ ap parse_nonempty whole ∙ e in
      let (lacks, cut) =
        split_space-IsSplit (drop 6 (c ∷ l)) (ip, text)
          (send_command-eq-send (split_space (drop 6 (c ∷ l))) ip text parsed) in
      (lacks, sym whole ∙ ap (λ x. codes "/send " ++ x) cut),
  λ h.
      ap parse_nonempty h.1
      ∙ send_line (ip ++ (32 ∷ text))
      ∙ ap send_command (split_space-append ip text h.0),
)
