-- ===== src/Tests/Dispatch.antt =====
-- A message of the fuzzy finder from its bytes to its dispatch, and the lines of a grep.
use magit.Base.{
  ℕ, ◌≡◌, arith, true, none, some, List, [], ◌∷◌, Bytes, All, map, concat, take, length, ltb, ℤ,
  pos, if◌then◌else◌,
}
use magit.Git.Refs.{codes}
use magit.Finder.Escape.Inverse.{must_escape}
use magit.Finder.Grep.{grep}
use magit.Finder.Grep.Lists.{grep-Listed}
use magit.Finder.Grep.Rounds.{Listed, IsRead, uncancelled}
use magit.Finder.Jobs.{Answer}
use magit.Finder.Parse.{TokenKind, array, object, string, primitive, Token, Key}
use magit.Finder.Parse.Members.{Part, element, number, passed}
use magit.Finder.Reply.{Entry, max_response_lines, max_real_response_size}
use magit.Finder.Reply.Whole.{body, reply}

abbrev json : Bytes
json = codes "[3,{\"cmd\":\"mru\",\"value\":\"ab\"}]"

abbrev token : TokenKind → ℕ → ℕ → Token
token k s e = record { kind = k; start = pos s; end = pos e }

abbrev json_tokens : List Token
json_tokens =
    token array 0 30
    ∷ (token primitive 1 2
        ∷ (token object 3 29
            ∷ (token string 5 8
                ∷ (token string 11 14 ∷ (token string 17 22 ∷ (token string 25 27 ∷ []))))))

-- jsmn_parse on this text.
abbrev jsmn : Bytes → ℤ × List Token
jsmn t = (pos 7, json_tokens)

abbrev json_parts : List Part
json_parts =
    passed
    ∷ (number (codes "3")
        ∷ (passed ∷ (element Key.cmd (codes "mru") ∷ (element Key.value (codes "ab") ∷ []))))

abbrev yes_all : Answer
yes_all = record { queued = true; spawned = true; reading = true }

abbrev two_reads : List (List Bytes)
two_reads = (codes "a.c:1:x" ∷ (codes "b.c:2:y" ∷ [])) ∷ ((codes "c.c:3:\"" ∷ []) ∷ [])

abbrev digits : ℕ → Bytes
digits n = codes "7"

two_reads-IsRead : All IsRead two_reads
unfolding must_escape
two_reads-IsRead = (
  (ground arith, (λ h. let no = h.0 in cc, (λ h. let no = h.0 in cc, tt)), omega arith),
  ((ground arith, (λ h. let no = h.0 in cc, tt), omega arith), tt),
)

grep-Listed_example :
    (es : List Entry) × Listed (concat two_reads) es
    × (grep digits (pos 3) (map uncancelled two_reads) 0 ≡ (
        let sent = take max_response_lines es in
        if ltb (length (body digits (codes "grep") sent (pos 3))) max_real_response_size
        then some (some (reply digits (codes "grep") sent (pos 3)))
        else none))
grep-Listed_example = grep-Listed digits (pos 3) two_reads 0 two_reads-IsRead (omega arith)
