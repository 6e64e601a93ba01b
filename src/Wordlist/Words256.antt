-- ===== src/Wordlist/Words256.antt =====
-- src/keystonecrypto/mnemonic.py: words 256 to 511 of the list.
use Prim.Native.String.{String}
use keystone_crypto.Prelude.{List, [], ◌∷◌}

unfoldable pub words_256 : List String
words_256 =
    "cactus" ∷ "cage" ∷ "cake" ∷ "call" ∷ "calm" ∷ "camera" ∷ "camp" ∷ "can" ∷ "canal" ∷ "cancel"
    ∷ "candy" ∷ "cannon" ∷ "canoe" ∷ "canvas" ∷ "canyon" ∷ "capable" ∷ "capital" ∷ "captain" ∷ "car"
    ∷ "carbon" ∷ "card" ∷ "cargo" ∷ "carpet" ∷ "carry" ∷ "cart" ∷ "case" ∷ "cash" ∷ "casino"
    ∷ "castle" ∷ "casual" ∷ "cat" ∷ "catalog" ∷ "catch" ∷ "category" ∷ "cattle" ∷ "caught" ∷ "cause"
    ∷ "caution" ∷ "cave" ∷ "ceiling" ∷ "celery" ∷ "cement" ∷ "census" ∷ "century" ∷ "cereal"
    ∷ "certain" ∷ "chair" ∷ "chalk" ∷ "champion" ∷ "change" ∷ "chaos" ∷ "chapter" ∷ "charge"
    ∷ "chase" ∷ "chat" ∷ "cheap" ∷ "check" ∷ "cheese" ∷ "chef" ∷ "cherry" ∷ "chest" ∷ "chicken"
    ∷ "chief" ∷ "child" ∷ "chimney" ∷ "choice" ∷ "choose" ∷ "chronic" ∷ "chuckle" ∷ "chunk"
    ∷ "churn" ∷ "cigar" ∷ "cinnamon" ∷ "circle" ∷ "citizen" ∷ "city" ∷ "civil" ∷ "claim" ∷ "clap"
    ∷ "clarify" ∷ "claw" ∷ "clay" ∷ "clean" ∷ "clerk" ∷ "clever" ∷ "click" ∷ "client" ∷ "cliff"
    ∷ "climb" ∷ "clinic" ∷ "clip" ∷ "clock" ∷ "clog" ∷ "close" ∷ "cloth" ∷ "cloud" ∷ "clown"
    ∷ "club" ∷ "clump" ∷ "cluster" ∷ "clutch" ∷ "coach" ∷ "coast" ∷ "coconut" ∷ "code" ∷ "coffee"
    ∷ "coil" ∷ "coin" ∷ "collect" ∷ "color" ∷ "column" ∷ "combine" ∷ "come" ∷ "comfort" ∷ "comic"
    ∷ "common" ∷ "company" ∷ "concert" ∷ "conduct" ∷ "confirm" ∷ "congress" ∷ "connect" ∷ "consider"
    ∷ "control" ∷ "convince" ∷ "cook" ∷ "cool" ∷ "copper" ∷ []

unfoldable pub words_384 : List String
words_384 =
    "copy" ∷ "coral" ∷ "core" ∷ "corn" ∷ "correct" ∷ "cost" ∷ "cotton" ∷ "couch" ∷ "country"
    ∷ "couple" ∷ "course" ∷ "cousin" ∷ "cover" ∷ "coyote" ∷ "crack" ∷ "cradle" ∷ "craft" ∷ "cram"
    ∷ "crane" ∷ "crash" ∷ "crater" ∷ "crawl" ∷ "crazy" ∷ "cream" ∷ "credit" ∷ "creek" ∷ "crew"
    ∷ "cricket" ∷ "crime" ∷ "crisp" ∷ "critic" ∷ "crop" ∷ "cross" ∷ "crouch" ∷ "crowd" ∷ "crucial"
    ∷ "cruel" ∷ "cruise" ∷ "crumble" ∷ "crunch" ∷ "crush" ∷ "cry" ∷ "crystal" ∷ "cube" ∷ "culture"
    ∷ "cup" ∷ "cupboard" ∷ "curious" ∷ "current" ∷ "curtain" ∷ "curve" ∷ "cushion" ∷ "custom"
    ∷ "cute" ∷ "cycle" ∷ "dad" ∷ "damage" ∷ "damp" ∷ "dance" ∷ "danger" ∷ "daring" ∷ "dash"
    ∷ "daughter" ∷ "dawn" ∷ "day" ∷ "deal" ∷ "debate" ∷ "debris" ∷ "decade" ∷ "december" ∷ "decide"
    ∷ "decline" ∷ "decorate" ∷ "decrease" ∷ "deer" ∷ "defense" ∷ "define" ∷ "defy" ∷ "degree"
    ∷ "delay" ∷ "deliver" ∷ "demand" ∷ "demise" ∷ "denial" ∷ "dentist" ∷ "deny" ∷ "depart"
    ∷ "depend" ∷ "deposit" ∷ "depth" ∷ "deputy" ∷ "derive" ∷ "describe" ∷ "desert" ∷ "design"
    ∷ "desk" ∷ "despair" ∷ "destroy" ∷ "detail" ∷ "detect" ∷ "develop" ∷ "device" ∷ "devote"
    ∷ "diagram" ∷ "dial" ∷ "diamond" ∷ "diary" ∷ "dice" ∷ "diesel" ∷ "diet" ∷ "differ" ∷ "digital"
    ∷ "dignity" ∷ "dilemma" ∷ "dinner" ∷ "dinosaur" ∷ "direct" ∷ "dirt" ∷ "disagree" ∷ "discover"
    ∷ "disease" ∷ "dish" ∷ "dismiss" ∷ "disorder" ∷ "display" ∷ "distance" ∷ "divert" ∷ "divide"
    ∷ []
