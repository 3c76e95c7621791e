-- ===== src/Packet/Nation.antt =====
-- include/nation.hpp: the flags of the game. No code tests them, and any byte is cast to one.
use worms2lobby_server_cpp.Base.{ℕ, ◌≡◌, refl, ◌==◌, Option, some, List, [], ◌∷◌, find_if}

pub data Nation : Type 0 where
  none united_kingdom argentina australia austria belgium : Nation
  brazil canada croatia bosnia_and_herzegovina_old_flag cyprus czech_republic : Nation
  denmark finland france georgia germany greece : Nation
  hong_kong hungary iceland india indonesia iran : Nation
  iraq ireland israel italy japan liechtenstein : Nation
  luxembourg malaysia malta mexico morocco netherlands : Nation
  new_zealand norway poland portugal puerto_rico romania : Nation
  russian_federation singapore south_africa spain sweden switzerland : Nation
  turkey united_states custom_skull_flag custom_team_17_flag max : Nation

-- The number that goes over the wire.
abbrev pub nation_value : Nation → ℕ
nation_value Nation.none = 0
nation_value Nation.united_kingdom = 1
nation_value Nation.argentina = 2
nation_value Nation.australia = 3
nation_value Nation.austria = 4
nation_value Nation.belgium = 5
nation_value Nation.brazil = 6
nation_value Nation.canada = 7
nation_value Nation.croatia = 8
nation_value Nation.bosnia_and_herzegovina_old_flag = 9
nation_value Nation.cyprus = 10
nation_value Nation.czech_republic = 11
nation_value Nation.denmark = 12
nation_value Nation.finland = 13
nation_value Nation.france = 14
nation_value Nation.georgia = 15
nation_value Nation.germany = 16
nation_value Nation.greece = 17
nation_value Nation.hong_kong = 18
nation_value Nation.hungary = 19
nation_value Nation.iceland = 20
nation_value Nation.india = 21
nation_value Nation.indonesia = 22
nation_value Nation.iran = 23
nation_value Nation.iraq = 24
nation_value Nation.ireland = 25
nation_value Nation.israel = 26
nation_value Nation.italy = 27
nation_value Nation.japan = 28
nation_value Nation.liechtenstein = 29
nation_value Nation.luxembourg = 30
nation_value Nation.malaysia = 31
nation_value Nation.malta = 32
nation_value Nation.mexico = 33
nation_value Nation.morocco = 34
nation_value Nation.netherlands = 35
nation_value Nation.new_zealand = 36
nation_value Nation.norway = 37
nation_value Nation.poland = 38
nation_value Nation.portugal = 39
nation_value Nation.puerto_rico = 40
nation_value Nation.romania = 41
nation_value Nation.russian_federation = 42
nation_value Nation.singapore = 43
nation_value Nation.south_africa = 44
nation_value Nation.spain = 45
nation_value Nation.sweden = 46
nation_value Nation.switzerland = 47
nation_value Nation.turkey = 48
nation_value Nation.united_states = 49
nation_value Nation.custom_skull_flag = 50
nation_value Nation.custom_team_17_flag = 51
nation_value Nation.max = 52

abbrev nations : List Nation
nations =
    Nation.none ∷ Nation.united_kingdom ∷ Nation.argentina ∷ Nation.australia ∷ Nation.austria
    ∷ Nation.belgium ∷ Nation.brazil ∷ Nation.canada ∷ Nation.croatia
    ∷ Nation.bosnia_and_herzegovina_old_flag ∷ Nation.cyprus ∷ Nation.czech_republic
    ∷ Nation.denmark ∷ Nation.finland ∷ Nation.france ∷ Nation.georgia ∷ Nation.germany
    ∷ Nation.greece ∷ Nation.hong_kong ∷ Nation.hungary ∷ Nation.iceland ∷ Nation.india
    ∷ Nation.indonesia ∷ Nation.iran ∷ Nation.iraq ∷ Nation.ireland ∷ Nation.israel ∷ Nation.italy
    ∷ Nation.japan ∷ Nation.liechtenstein ∷ Nation.luxembourg ∷ Nation.malaysia ∷ Nation.malta
    ∷ Nation.mexico ∷ Nation.morocco ∷ Nation.netherlands ∷ Nation.new_zealand ∷ Nation.norway
    ∷ Nation.poland ∷ Nation.portugal ∷ Nation.puerto_rico ∷ Nation.romania
    ∷ Nation.russian_federation ∷ Nation.singapore ∷ Nation.south_africa ∷ Nation.spain
    ∷ Nation.sweden ∷ Nation.switzerland ∷ Nation.turkey ∷ Nation.united_states
    ∷ Nation.custom_skull_flag ∷ Nation.custom_team_17_flag ∷ Nation.max ∷ []

-- The flag of a byte that has one.
unfoldable pub nation_of_value : ℕ → Option Nation
nation_of_value v = find_if (λ n. nation_value n == v) nations

-- Every flag has a number of its own.
pub nation_of_value-nation_value : (n : Nation) → nation_of_value (nation_value n) ≡ some n
unfolding nation_of_value
nation_of_value-nation_value Nation.none = refl
nation_of_value-nation_value _ = refl
