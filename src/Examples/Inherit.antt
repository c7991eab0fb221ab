-- ===== src/Examples/Inherit.antt =====
-- A new version takes the socket of a running one over, in a world that carries their messages.
use open_dsu.Prelude.{
  ℕ, Option, some, ltb, ◌==◌, if◌then◌else◌, ◌≡◌, refl, true, none, List, [], ◌∷◌, ◌++◌, arith, ◌+◌,
}
use open_dsu.Prelude.Words.{Word, minus_one, truth}
use open_dsu.Os.{Os, Message}
use open_dsu.State.{Socket}
use open_dsu.Messages.{answer}
use open_dsu.Messages.Channel.{IsChannel, arriving}
use open_dsu.Bind.{bind_mapped, moved, monitor_init}
use open_dsu.Bind.Inherit.{requested, both_read, bind_mapped-takes_over}
use open_dsu.Examples.World.{State, small, start, web, plain_socket, server}

abbrev rest_of : List Message → List Message
rest_of [] = []
rest_of (_ ∷ l) = l

abbrev first_of : List Message → Message
first_of [] = record { payload = []; control = none }
first_of (m ∷ _) = m

abbrev file_in : Message → Option ℕ
file_in m = elim m.control [ none ↦ none | some c ↦ some c.fd ]

abbrev known : State → Word → Option ℕ
known w d = if ltb d w.fresh then w.files d else none

-- A descriptor arrives under the next free number. The name of the communication socket is in use.
abbrev meeting : Os
meeting = record small {
  bind = λ fd addr w. (minus_one, record w { error = 98 });
  sendmsg = λ fd m f w. (4, record w { inbox = w.inbox ++ m ∷ [] });
  recvmsg = λ fd f w. (
    (4, arriving w.fresh (first_of w.inbox)),
    record w {
      inbox = rest_of w.inbox;
      files = λ d. if d == w.fresh then file_in (first_of w.inbox) else w.files d;
      fresh = w.fresh + 1;
    },
  );
}

meeting-IsChannel : IsChannel meeting 14 8
meeting-IsChannel = record {
  apart = omega arith;
  queue = λ w. w.inbox;
  number = λ w. w.fresh;
  refers = λ d w. known w d;
  file = λ d. d;
  is_valid = λ d. true;
  unused = λ w. ground arith;
  sends = λ sendfd port w v. refl;
  receives = λ sendfd port rest w h. ground (arith, h);
  refers-recvmsg = λ d w h. ground arith;
  passes_check = λ sendfd w v. refl;
  queue-getsockopt = λ sendfd w. refl;
  queue-recv = λ n f w. refl;
  queue-sem_wait = λ p w. refl;
  queue-sem_post = λ p w. refl;
  queue-store = λ p i v w. refl;
}

abbrev newcomer : Socket
newcomer = record plain_socket { comfd = 8 }

-- The running version has answered a request on its connection 14.
abbrev asked : State
asked = record start { inbox = (answer meeting web 14 start).1.inbox }

bind_mapped-takes_over_example :
    let (result, p') = (bind_mapped meeting 0 [] 6 [] server newcomer asked).0 in
    let w =
      both_read meeting 14 newcomer meeting-IsChannel
        (requested meeting newcomer (monitor_init meeting 0 newcomer asked).1) in
    (result ≡ 0)
    × ((t : Socket) × (p' ≡ moved meeting server t)
        × (t.fd ≡ 6)
        × (known w t.shadowfd ≡ some 7)
        × (known w t.comfd ≡ some 8)
        × (truth t.monitoring ≡ true))
unfolding monitor_init meeting-IsChannel
bind_mapped-takes_over_example =
    bind_mapped-takes_over meeting 14 newcomer meeting-IsChannel 0 [] 6 [] server web start asked
      refl (omega arith) (omega arith) refl refl refl refl refl (omega arith, refl) refl
