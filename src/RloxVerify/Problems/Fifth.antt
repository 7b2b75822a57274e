-- ===== src/RloxVerify/Problems/Fifth.antt =====
-- environments/rlox_verify/rlox_verify/__init__.py: rows 40 to 48 of `_FALLBACK_PROBLEMS`.
use mathlib.Core.List.{List, [], ◌∷◌}
use rlox.RloxVerify.Problems.Rows.{Row, row}

abbrev pub fifth_problems : List Row
fifth_problems =
    row
      "Write a Python function `flatten_and_sort(lst_of_lsts)` that flattens a list of lists and returns a sorted list of all elements."
      ""
      "assert flatten_and_sort([[3, 1], [4, 1, 5], [9, 2, 6]]) == [1, 1, 2, 3, 4, 5, 6, 9]\nassert flatten_and_sort([[5], [], [3, 1]]) == [1, 3, 5]\nassert flatten_and_sort([[]]) == []\n"
    ∷ row
        "Write a Python function `valid_parentheses(s)` that returns True if the string s consisting of '(', ')', '{', '}', '[', ']' is valid (every opening bracket is closed in the correct order)."
        ""
        "assert valid_parentheses('()[]{}') == True\nassert valid_parentheses('([)]') == False\nassert valid_parentheses('{[]}') == True\nassert valid_parentheses('') == True\nassert valid_parentheses(']') == False\n"
    ∷ row
        "Write a Python function `capitalize_words(sentence)` that capitalizes the first letter of each word in the sentence (title case)."
        ""
        "assert capitalize_words('hello world') == 'Hello World'\nassert capitalize_words('the quick brown fox') == 'The Quick Brown Fox'\nassert capitalize_words('') == ''\nassert capitalize_words('a') == 'A'\n"
    ∷ row
        "Write a Python function `unique_paths(m, n)` that returns the number of unique paths from the top-left to the bottom-right of an m×n grid, moving only right or down."
        ""
        "assert unique_paths(3, 7) == 28\nassert unique_paths(3, 2) == 3\nassert unique_paths(1, 1) == 1\nassert unique_paths(2, 2) == 2\n"
    ∷ row
        "Write a Python function `intersection(a, b)` that returns a sorted list of elements that appear in both sets a and b (as lists). No duplicates."
        ""
        "assert intersection([1, 2, 3, 4], [3, 4, 5, 6]) == [3, 4]\nassert intersection([1, 2], [3, 4]) == []\nassert intersection([1, 1, 2], [1, 3]) == [1]\nassert intersection([], [1, 2]) == []\n"
    ∷ row
        "Write a Python function `max_product_pair(nums)` that returns the maximum product of any two elements in nums."
        ""
        "assert max_product_pair([3, 4, 5, 2]) == 20\nassert max_product_pair([-10, -3, 5, 6]) == 30\nassert max_product_pair([1, 2]) == 2\nassert max_product_pair([-1, -2, -3]) == 6\n"
    ∷ row
        "Write a Python function `reverse_words(sentence)` that reverses the order of words in a sentence (split on spaces, rejoin with spaces)."
        ""
        "assert reverse_words('hello world') == 'world hello'\nassert reverse_words('the quick brown fox') == 'fox brown quick the'\nassert reverse_words('single') == 'single'\nassert reverse_words('a b c') == 'c b a'\n"
    ∷ row
        "Write a Python function `digit_frequency(n)` that returns a dict mapping each digit character to its count of occurrences in the string representation of positive integer n."
        ""
        "assert digit_frequency(1122334) == {'1': 2, '2': 2, '3': 2, '4': 1}\nassert digit_frequency(5) == {'5': 1}\nassert digit_frequency(111) == {'1': 3}\nassert digit_frequency(1234567890) == {'1':1,'2':1,'3':1,'4':1,'5':1,'6':1,'7':1,'8':1,'9':1,'0':1}\n"
    ∷ row
        "Write a Python function `power(base, exp)` that returns base raised to the power exp without using the ** operator or built-in pow(). exp is a non-negative integer."
        ""
        "assert power(2, 10) == 1024\nassert power(3, 3) == 27\nassert power(5, 0) == 1\nassert power(1, 100) == 1\n"
    ∷ []
