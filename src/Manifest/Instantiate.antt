-- ===== src/Manifest/Instantiate.antt =====
-- `Manifest::instantiate`. The source's name is a file name: it holds no separator.
use makebelieve.Base.{
  false, Option, none, some, [], ◌∷◌, ◌++◌, if◌then◌else◌, ◌==◌, ℕ-HasTest, List-HasTest,
}
use makebelieve.Text.{Bytes}
use makebelieve.Paths.{filename, parent_path}
use makebelieve.Manifest.Pattern.{name_pattern, matches, stem}
use makebelieve.Manifest.{Rule}

-- The loop over the command: each `*` becomes what the pattern's `*` matched.
unfoldable pub replace_stars : Bytes → Bytes → Bytes
replace_stars s [] = []
replace_stars s (c ∷ command) = (if c == b'*' then s else c ∷ []) ++ replace_stars s command

unfoldable pub instantiate : Rule → Bytes → Option Rule
unfolding filename parent_path name_pattern matches stem replace_stars
instantiate rule source_name =
    let source = name_pattern (filename rule.wildcard_source) in
    let output = name_pattern (filename rule.output) in
    let s = stem source source_name in
    if matches source source_name
    then some (record {
      output = parent_path rule.output ++ (output.prefix ++ (s ++ output.suffix)) ∷ [];
      action = rule.action;
      command = replace_stars s rule.command;
      wildcard_source = [];
      wildcard_over_outputs = false;
    })
    else none
