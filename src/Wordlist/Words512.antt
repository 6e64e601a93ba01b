-- ===== src/Wordlist/Words512.antt =====
-- src/keystonecrypto/mnemonic.py: words 512 to 767 of the list.
use Prim.Native.String.{String}
use keystone_crypto.Prelude.{List, [], ◌∷◌}

unfoldable pub words_512 : List String
words_512 =
    "divorce" ∷ "dizzy" ∷ "doctor" ∷ "document" ∷ "dog" ∷ "doll" ∷ "dolphin" ∷ "domain" ∷ "donate"
    ∷ "donkey" ∷ "donor" ∷ "door" ∷ "dose" ∷ "double" ∷ "dove" ∷ "draft" ∷ "dragon" ∷ "drama"
    ∷ "drastic" ∷ "draw" ∷ "dream" ∷ "dress" ∷ "drift" ∷ "drill" ∷ "drink" ∷ "drip" ∷ "drive"
    ∷ "drop" ∷ "drum" ∷ "dry" ∷ "duck" ∷ "dumb" ∷ "dune" ∷ "during" ∷ "dust" ∷ "dutch" ∷ "duty"
    ∷ "dwarf" ∷ "dynamic" ∷ "eager" ∷ "eagle" ∷ "early" ∷ "earn" ∷ "earth" ∷ "easily" ∷ "east"
    ∷ "easy" ∷ "echo" ∷ "ecology" ∷ "economy" ∷ "edge" ∷ "edit" ∷ "educate" ∷ "effort" ∷ "egg"
    ∷ "eight" ∷ "either" ∷ "elbow" ∷ "elder" ∷ "electric" ∷ "elegant" ∷ "element" ∷ "elephant"
    ∷ "elevator" ∷ "elite" ∷ "else" ∷ "embark" ∷ "embody" ∷ "embrace" ∷ "emerge" ∷ "emotion"
    ∷ "employ" ∷ "empower" ∷ "empty" ∷ "enable" ∷ "enact" ∷ "end" ∷ "endless" ∷ "endorse" ∷ "enemy"
    ∷ "energy" ∷ "enforce" ∷ "engage" ∷ "engine" ∷ "enhance" ∷ "enjoy" ∷ "enlist" ∷ "enough"
    ∷ "enrich" ∷ "enroll" ∷ "ensure" ∷ "enter" ∷ "entire" ∷ "entry" ∷ "envelope" ∷ "episode"
    ∷ "equal" ∷ "equip" ∷ "era" ∷ "erase" ∷ "erode" ∷ "erosion" ∷ "error" ∷ "erupt" ∷ "escape"
    ∷ "essay" ∷ "essence" ∷ "estate" ∷ "eternal" ∷ "ethics" ∷ "evidence" ∷ "evil" ∷ "evoke"
    ∷ "evolve" ∷ "exact" ∷ "example" ∷ "excess" ∷ "exchange" ∷ "excite" ∷ "exclude" ∷ "excuse"
    ∷ "execute" ∷ "exercise" ∷ "exhaust" ∷ "exhibit" ∷ "exile" ∷ "exist" ∷ "exit" ∷ []

unfoldable pub words_640 : List String
words_640 =
    "exotic" ∷ "expand" ∷ "expect" ∷ "expire" ∷ "explain" ∷ "expose" ∷ "express" ∷ "extend"
    ∷ "extra" ∷ "eye" ∷ "eyebrow" ∷ "fabric" ∷ "face" ∷ "faculty" ∷ "fade" ∷ "faint" ∷ "faith"
    ∷ "fall" ∷ "false" ∷ "fame" ∷ "family" ∷ "famous" ∷ "fan" ∷ "fancy" ∷ "fantasy" ∷ "farm"
    ∷ "fashion" ∷ "fat" ∷ "fatal" ∷ "father" ∷ "fatigue" ∷ "fault" ∷ "favorite" ∷ "feature"
    ∷ "february" ∷ "federal" ∷ "fee" ∷ "feed" ∷ "feel" ∷ "female" ∷ "fence" ∷ "festival" ∷ "fetch"
    ∷ "fever" ∷ "few" ∷ "fiber" ∷ "fiction" ∷ "field" ∷ "figure" ∷ "file" ∷ "film" ∷ "filter"
    ∷ "final" ∷ "find" ∷ "fine" ∷ "finger" ∷ "finish" ∷ "fire" ∷ "firm" ∷ "first" ∷ "fiscal"
    ∷ "fish" ∷ "fit" ∷ "fitness" ∷ "fix" ∷ "flag" ∷ "flame" ∷ "flash" ∷ "flat" ∷ "flavor" ∷ "flee"
    ∷ "flight" ∷ "flip" ∷ "float" ∷ "flock" ∷ "floor" ∷ "flower" ∷ "fluid" ∷ "flush" ∷ "fly"
    ∷ "foam" ∷ "focus" ∷ "fog" ∷ "foil" ∷ "fold" ∷ "follow" ∷ "food" ∷ "foot" ∷ "force" ∷ "forest"
    ∷ "forget" ∷ "fork" ∷ "fortune" ∷ "forum" ∷ "forward" ∷ "fossil" ∷ "foster" ∷ "found" ∷ "fox"
    ∷ "fragile" ∷ "frame" ∷ "frequent" ∷ "fresh" ∷ "friend" ∷ "fringe" ∷ "frog" ∷ "front" ∷ "frost"
    ∷ "frown" ∷ "frozen" ∷ "fruit" ∷ "fuel" ∷ "fun" ∷ "funny" ∷ "furnace" ∷ "fury" ∷ "future"
    ∷ "gadget" ∷ "gain" ∷ "galaxy" ∷ "gallery" ∷ "game" ∷ "gap" ∷ "garage" ∷ "garbage" ∷ "garden"
    ∷ "garlic" ∷ "garment" ∷ []
