-- ===== src/Lib.antt =====
-- MQO_Public: multi-query optimisation for approximate nearest-neighbour search. A batch of queries
-- is put into an order, its trajectory, in which a query comes after one near it, whose answer is
-- then where its own search starts.
--
-- The parts, and the files that model them:
--   mqo/basic.hpp          distances, random pairs                Distance
--   mqo/lsh_mst_opt.hpp    groups by hyperplanes, Prim's trees    GroupMst (one group), Lsh
--                          scores that nothing calls              Lsh.Scores
--   mqo/reorder.hpp        depth-first order of a forest          Reorder
--                          the same with shorter edges           Flatten
--   mqo/checker.hpp        the assertions on a trajectory         Checker
--   mqo/ann/build_ann*.hpp an index of the queries                AnnBuild
--   hnsw_exp/graph_handler.hpp, build_graphs.cpp  an index of the data  HnswGraph
--   mqo/ann/build_mst_from_ann.hpp   trees of an index            AnnMst
--   mqo/ann_mst_opt.hpp    the optimiser with one index           AnnOpt
--   mqo/mixed_mst_opt.hpp  groups, each with its own index        Mixed
--   mqo/fullmst/full_mst.hpp         the tree of all pairs, files FullMst
--                          numbers in text files                  Text
--   mqo/interface.hpp      the entry points of the optimisation   Interface
--   data_handler/calculator.hpp, answer_handler.hpp  exact answers  Answers
--   data_handler/fbin_handler.hpp, u8bin_handler.hpp, data_handler.hpp  DataFiles
--   result_handler/saver.hpp         tables of results            Saver
--   hnsw_exp/process.hpp   the recall of searches                 Recall
--   nsg_exp/process.hpp    the same with NSG                      NsgRecall
--   vamana_exp/process.hpp the same with DiskANN                  VamanaRecall
--                          the loop these two share               Follow
--   run_hnsw.cpp, run_nsg.cpp, run_vamana.cpp  the experiments    Drivers
--                          their loop over the beam sizes         Sweep
--   search_best_hnsw.cpp, search_best_nsg.cpp, search_best_vamana.cpp  SearchBest
--   mqo/fullmst/build_full_mst.cpp   the tree of all pairs, made  Drivers
--   data_handler/scripts/  conversion and samples of files        DataScripts
-- Trajectory holds the pairs (child, parent) that these parts exchange and the two predicates on
-- them, IsForest and IsTrajectory. Queue is the interface of std::priority_queue, for a strict
-- weak ordering, with a list that meets it. Floats is the interface of float and double:
-- operations without laws, since the program needs few of them; a theorem names those that it
-- uses. AnnBuild.HnswLib is what the program calls of hnswlib, and AnnBuild.Laws.HnswLaws and
-- HnswContents what a theorem needs of it, where M is more than 1.
--
-- Functions keep the names of the code, in small letters. A result is a `Run`: what C++ leaves
-- undefined (a read out of bounds, a signed overflow), a failed assertion and an exception are errors.
-- An `int` that is never negative is a number, checked against 2^31 where it is computed; the parent
-- -1 is `none`. Vectors, stacks and sets are lists. Random numbers are streams, given as arguments.
-- A `while` loop takes fuel, and its theorems say how much is enough: one more than the pairs for
-- the stack loop, one more than the groups for the loop over the queue, more than one plus twice
-- the entries of the neighbour lists for a search on an index, and more than the beam sizes up to the
-- greatest for the loop of the experiments.
--
-- Parameters stand for what the repository does not have or copies: NsgRecall.NsgLib,
-- VamanaRecall.Search and Recall.Search for the searches, the sum of the lanes of a vector register
-- for AVX-512, how a double is written as text, the candidates of SearchBest, whose header is
-- missing, and the times that it compares.
--
-- Not modelled: timing, output to the console and the parsing of command lines, which are no part of
-- the results; the graph files of NSG and DiskANN and the programs that build them, which are calls
-- of the libraries; and the copies of hnswlib, NSG, efanna and DiskANN in the repository.
pub mod Prelude
pub mod Floats
pub mod Text
pub mod Trajectory
pub mod Checker
pub mod Reorder
pub mod Distance
pub mod Queue
pub mod GroupMst
pub mod Lsh
pub mod AnnMst
pub mod AnnBuild
pub mod HnswGraph
pub mod AnnOpt
pub mod Mixed
pub mod FullMst
pub mod Interface
pub mod Answers
pub mod Recall
pub mod DataFiles
pub mod Flatten
pub mod Saver
pub mod Follow
pub mod NsgRecall
pub mod VamanaRecall
pub mod DataScripts
pub mod Sweep
pub mod Drivers
pub mod SearchBest
mod Examples
