-- ===== src/Hanoi.antt =====
-- OS_Spring_2026/course_2/hanoi-nr/: the recursive program, and the two with a stack of their own.
-- A peg is the number of its character. The first two print the same text for a move, and their output
-- is the list of moves, oldest first; the third prints another text, and its output is the characters.
pub mod Pegs
pub mod Recursive
pub mod Legal
pub mod Machine
pub mod ForLoop
mod Tests
