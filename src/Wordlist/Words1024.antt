-- ===== src/Wordlist/Words1024.antt =====
-- src/keystonecrypto/mnemonic.py: words 1024 to 1279 of the list.
use Prim.Native.String.{String}
use keystone_crypto.Prelude.{List, [], ◌∷◌}

unfoldable pub words_1024 : List String
words_1024 =
    "length" ∷ "lens" ∷ "leopard" ∷ "lesson" ∷ "letter" ∷ "level" ∷ "liar" ∷ "liberty" ∷ "library"
    ∷ "license" ∷ "life" ∷ "lift" ∷ "light" ∷ "like" ∷ "limb" ∷ "limit" ∷ "link" ∷ "lion" ∷ "liquid"
    ∷ "list" ∷ "little" ∷ "live" ∷ "lizard" ∷ "load" ∷ "loan" ∷ "lobster" ∷ "local" ∷ "lock"
    ∷ "logic" ∷ "lonely" ∷ "long" ∷ "loop" ∷ "lottery" ∷ "loud" ∷ "lounge" ∷ "love" ∷ "loyal"
    ∷ "lucky" ∷ "luggage" ∷ "lumber" ∷ "lunar" ∷ "lunch" ∷ "luxury" ∷ "lyrics" ∷ "machine" ∷ "mad"
    ∷ "magic" ∷ "magnet" ∷ "maid" ∷ "mail" ∷ "main" ∷ "major" ∷ "make" ∷ "mammal" ∷ "man" ∷ "manage"
    ∷ "mandate" ∷ "mango" ∷ "mansion" ∷ "manual" ∷ "maple" ∷ "marble" ∷ "march" ∷ "margin"
    ∷ "marine" ∷ "market" ∷ "marriage" ∷ "mask" ∷ "mass" ∷ "master" ∷ "match" ∷ "material" ∷ "math"
    ∷ "matrix" ∷ "matter" ∷ "maximum" ∷ "maze" ∷ "meadow" ∷ "mean" ∷ "measure" ∷ "meat" ∷ "mechanic"
    ∷ "medal" ∷ "media" ∷ "melody" ∷ "melt" ∷ "member" ∷ "memory" ∷ "mention" ∷ "menu" ∷ "mercy"
    ∷ "merge" ∷ "merit" ∷ "merry" ∷ "mesh" ∷ "message" ∷ "metal" ∷ "method" ∷ "middle" ∷ "midnight"
    ∷ "milk" ∷ "million" ∷ "mimic" ∷ "mind" ∷ "minimum" ∷ "minor" ∷ "minute" ∷ "miracle" ∷ "mirror"
    ∷ "misery" ∷ "miss" ∷ "mistake" ∷ "mix" ∷ "mixed" ∷ "mixture" ∷ "mobile" ∷ "model" ∷ "modify"
    ∷ "mom" ∷ "moment" ∷ "monitor" ∷ "monkey" ∷ "monster" ∷ "month" ∷ "moon" ∷ "moral" ∷ "more"
    ∷ "morning" ∷ []

unfoldable pub words_1152 : List String
words_1152 =
    "mosquito" ∷ "mother" ∷ "motion" ∷ "motor" ∷ "mountain" ∷ "mouse" ∷ "move" ∷ "movie" ∷ "much"
    ∷ "muffin" ∷ "mule" ∷ "multiply" ∷ "muscle" ∷ "museum" ∷ "mushroom" ∷ "music" ∷ "must"
    ∷ "mutual" ∷ "myself" ∷ "mystery" ∷ "myth" ∷ "naive" ∷ "name" ∷ "napkin" ∷ "narrow" ∷ "nasty"
    ∷ "nation" ∷ "nature" ∷ "near" ∷ "neck" ∷ "need" ∷ "negative" ∷ "neglect" ∷ "neither" ∷ "nephew"
    ∷ "nerve" ∷ "nest" ∷ "net" ∷ "network" ∷ "neutral" ∷ "never" ∷ "news" ∷ "next" ∷ "nice"
    ∷ "night" ∷ "noble" ∷ "noise" ∷ "nominee" ∷ "noodle" ∷ "normal" ∷ "north" ∷ "nose" ∷ "notable"
    ∷ "note" ∷ "nothing" ∷ "notice" ∷ "novel" ∷ "now" ∷ "nuclear" ∷ "number" ∷ "nurse" ∷ "nut"
    ∷ "oak" ∷ "obey" ∷ "object" ∷ "oblige" ∷ "obscure" ∷ "observe" ∷ "obtain" ∷ "obvious" ∷ "occur"
    ∷ "ocean" ∷ "october" ∷ "odor" ∷ "off" ∷ "offer" ∷ "office" ∷ "often" ∷ "oil" ∷ "okay" ∷ "old"
    ∷ "olive" ∷ "olympic" ∷ "omit" ∷ "once" ∷ "one" ∷ "onion" ∷ "online" ∷ "only" ∷ "open" ∷ "opera"
    ∷ "opinion" ∷ "oppose" ∷ "option" ∷ "orange" ∷ "orbit" ∷ "orchard" ∷ "order" ∷ "ordinary"
    ∷ "organ" ∷ "orient" ∷ "original" ∷ "orphan" ∷ "ostrich" ∷ "other" ∷ "outdoor" ∷ "outer"
    ∷ "output" ∷ "outside" ∷ "oval" ∷ "oven" ∷ "over" ∷ "own" ∷ "owner" ∷ "oxygen" ∷ "oyster"
    ∷ "ozone" ∷ "pact" ∷ "paddle" ∷ "page" ∷ "pair" ∷ "palace" ∷ "palm" ∷ "panda" ∷ "panel"
    ∷ "panic" ∷ "panther" ∷ "paper" ∷ []
